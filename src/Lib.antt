-- ===== src/Lib.antt =====
-- seccap_sgx_bank: a bank whose accounts live in an SGX enclave and are sealed to a file of the
-- host. A terminal (Seccap_client/client.cpp) sends instructions, as texts with commas, to a server
-- (App/App.cpp), which calls the enclave (Enclave/Enclave.cpp); the enclave keeps the accounts
-- (Enclave/DealManager.cpp, Enclave/Account.cpp), seals them (Enclave/sealing.cpp), and calls the
-- application back to write and read the file "account".
--
-- Base: names and lemmas that all share. CLib: what the source uses of the C library (NUL-terminated
--   strings, memcpy, atoi, "%ld", 64-bit words as bytes). UserTypes: Include/user_types.h.
-- World: the state. Objects stand on a heap and are never freed; DEAL_MANAGER is `deal_manager`;
--   the host's file and what its file system answers are `file` and `io`; the random draws of the
--   sealing are counted; what is printed is `console`. A run ends with a value or with the fault
--   that stops it: exit, a failed assert, or an access that C++ leaves undefined.
-- Sgx: the sealing functions of the SDK, which are not part of the repository, as a parameter with
--   what the SDK documents of them.
-- Account: Enclave/Account.cpp: `make`, `new_account`, `withdraw`, `deposit`.
-- Sealing: Enclave/sealing.cpp: `get_sealed_data_size`, `sealing`, `unsealing`.
-- Host: the ocalls of App/App.cpp on the file: `ocall_account_list_store`,
--   `ocall_get_sealed_account_list_size`, `ocall_get_sealed_account_list`.
-- DealManager: Enclave/DealManager.cpp: `account_list_store_storage` marshals the accounts into a
--   buffer (`marshal_all`), seals and stores it; `account_list_setting` reads, unseals and parses it
--   (`parse_loop`).
-- Enclave: the ecalls of Enclave/Enclave.cpp. `Enclave.Inv` relates the state to the bank of Bank,
--   which has no pointers, buffers, sealing or file, and is the specification. `Enclave.Print` is the
--   enclave's `printf`, whose texts the other modules append to `console`; `vsnprintf` is a parameter.
-- Bank: the specification: a list of accounts and who is served, with what a deposit (`credit`) and a
--   withdrawal (`debit`) make of a balance, which does not use Account's code. `Bank.Sound` is what holds of it
--   between two requests, `Bank.Total` its money, and `Bank.View` a ledger, a map from names to
--   accounts that forgets their order. `Enclave.Books` compares the ecalls with these.
-- Refusals: `World.Preserves` has one rule for each way to build a run that keeps a predicate, and
--   one for each that never returns; `Host.Refused` is the predicate of a host that cannot write the
--   file, and the modules `Refused` of the other parts follow it through every operation, up to
--   `main`. `Enclave.Durable` is about what an ecall answers on such a host, and `Enclave.Lost` about
--   a host on which only the close of the file fails (`close_succeeds`), which nothing tests.
-- Server: App/App.cpp: the reception of `main`, over the sequence of what `recv` returns.
--   `Server.Respond` is its specification on the bank: `respond` for a message, `respond_all` for a
--   session; `Server.Cut` is the reference for the splitting; `Server.Refinement` compares them with
--   the code, by `Gives`: the same result or fault, and a state that stands for the same bank.
-- Launch: App/App.cpp: `initialize_enclave` and `print_error_message`.
-- App: App/App.cpp: `main` as a whole, over what the system answers to the calls that set the
--   sockets up (`Network`), and over what is received. `App.Run` takes it to the bank.
-- Client: Seccap_client/client.cpp, over the sequence of what is typed and answered.
--   `Client.Amounts`, `Client.Conversation` and `Client.Welcome` compose it with the server, for one
--   message each; `Client.Visit` does so for whole visits, against `Client.Teller`, the promise to
--   the customers: a bank and the amount that was shown last. `Client.Stale` and `Client.Leftover`
--   are about what earlier messages leave in its buffer. `App.Visit` adds the application's `main`,
--   and `App.Days` runs both programs day after day on one file. The terminal and the server each
--   have their own `Machine`.
-- Threads: Enclave/TrustedLibrary/Thread.cpp and its callers in App/TrustedLibrary/Thread.cpp, a
--   sample of the SDK that the repository carries: the producer and the consumers as a step
--   relation, each of whose steps is one thread's, and `Threads.Adders`, the threads that increase
--   a counter. `Threads.Inv` is the invariant, in sums over the threads. The theorems hold for any
--   LOOPS_PER_THREAD. Only a signal ends `sgx_thread_cond_wait`, as in the SDK.
-- Edger8r: the samples on arrays and pointers in App/Edger8rSyntax and Enclave/Edger8rSyntax. The
--   code that passes their buffers is generated from the .edl files, and is a parameter (`Bridge`)
--   with what the comments of these files say of the attributes (`BridgeLaws`): a copy has as many
--   entries as [size] or [count] says, or as the string has with its NUL.
-- Tests: a sealing function, a machine and a bank on which the hypotheses hold.
--
-- Bounds and fuel. `uint64_t` is a number below 2 ^ 64 with its wrap-around written out, and sizes
-- that pass through `uint16_t` are cut at 2 ^ 16. The parser of the account list runs on fuel of one
-- more than the bytes of the buffer, and every round takes a byte: a read behind the buffer, which C++
-- leaves undefined, stops the run. `digits` runs on fuel of 20, the
-- digits of 2 ^ 64. What C leaves open is a parameter (`Machine`): the value of `atoi` out of the
-- range of `int`, and the contents of an array that has not been initialised.
--
-- Not modelled: failing allocations, prompts, `getchar`, the closing of the sockets, and an SGX
-- status other than success at an ecall, which the server ignores. One `recv` returns what one
-- `send` has sent; other cuts of the stream are events of their own. AccountListSetting has a result
-- type and no return: the model returns, as the code does when it is compiled without optimisation,
-- which is the Makefile's default. Asserts of the enclave are
-- active: the Makefile defines NDEBUG for the application only. The samples of Edger8r are modelled
-- with their asserts active on both sides. The samples of the SDK on types and functions (Types.cpp
-- and Functions.cpp of App/Edger8rSyntax and Enclave/Edger8rSyntax) and on the C and C++ libraries
-- (Libc and Libcxx of App/TrustedLibrary and Enclave/TrustedLibrary) pass fixed values and are called
-- by nothing in the program. What a write outside of an array does after it is not followed: the run
-- stops there.
pub mod Base
pub mod CLib
pub mod UserTypes
pub mod Account
pub mod World
pub mod Sgx
pub mod Host
pub mod Sealing
pub mod DealManager
pub mod Enclave
pub mod Bank
pub mod Server
pub mod Client
pub mod Launch
pub mod App
pub mod Threads
pub mod Edger8r
mod Tests
