-- ===== src/Lib.antt =====
-- A model of mysh, a shell for Linux in C, and theorems about it.
--
-- How the program works. `main` (src/mysh.c) reads a line, puts spaces round each `|`, cuts the line into
-- tokens (src/io_helpers.c), expands the variables in each token (src/variables.c), and hands the tokens to
-- `execute_command` (src/commands.c), which runs a builtin (src/builtins.c), a pipeline, an assignment or a
-- program. Processes in the background stand in a table of slots that `add_bg_process` fills,
-- `display_done_process` and the builtins `ps` and `kill` read. The builtins of the chat speak a
-- protocol of lines that end in CR LF, by the buffers of src/socket.c.
--
-- Which file models what.
--   Prelude      names of the libraries, tests on numbers, lists; not code of the program
--   CString      strings of C as lists of bytes: strcmp, strncmp, strchr, strncat, strtok, atoi
--   Variables    src/variables.c: find_key, find_value, is_valid_varname, set_variable,
--                find_val_with_key, remove_all_var; the linked list is a list of nodes
--   Expand       src/variables.c: expand_variables; its local buffers are the record Expansion
--   Input        src/io_helpers.c: get_input, tokenize_input; src/mysh.c: the loop that pads pipes
--   Jobs         src/commands.c: the table of background processes; src/builtins.c: bn_ps, bn_kill
--   Command      src/commands.c: execute_command and the splitting in execute_pipeline; src/builtins.c:
--                check_builtin
--   Processes    src/commands.c: the pipes, forks, descriptors and ends of the processes of
--                execute_pipeline, and execute_bin; a table maps a descriptor to what it refers to
--   Socket       src/socket.c: the receive buffer, write_to_socket and the set-up; src/builtins.c:
--                the reading of bn_start_client
--   Builtins     src/builtins.c: bn_echo and bn_send, each loop with its buffer
--   Files        src/builtins.c: bn_cd, bn_cat and bn_wc: their paths, what is counted and what is shown
--   Listing      src/builtins.c: parse_ls, and bn_ls and recursive_ls on a tree of directories
--   Main         src/mysh.c: a round of the loop of main, from the line to its end; the process of the
--                shell as a whole, with signals and its server (Main/Process); the child of a
--                line in the background (Main/Child); what main itself shows (Main/Shown)
--   Display      src/io_helpers.c: display_message, display_error
--   Chat         src/chat_helpers.c; src/server.c: accept_connection and the service of one client in
--                run_server; a client is known by the address of its record
--   ServerLoop   src/server.c: run_server: a round of its loop, with the walk over the clients, and
--                the whole run from the set-up of its socket (ServerLoop/Start)
--   Hosting      src/server.c: start_server, cleanup_server; src/builtins.c: bn_start_server,
--                bn_close_server; src/mysh.c: exit_handler
--   Client       src/builtins.c: bn_start_client, a round of its loop for each answer of select
--
-- Conventions. A fault of C (a write or a read outside an array, an access through NULL) is `none`.
-- The sizes of arrays are those of the source: 128 and 129 bytes for lines and values, 257 bytes for
-- the padded line, 1000 slots, 1129 bytes for a receive buffer. `size_t` wraps modulo 2 ^ 64.
-- A text has no byte 0. Answers of the system (read, write, waitpid, kill, the end of a process) are
-- arguments. So are the allocations of set_variable and the strdup of set_username; those of find_key,
-- find_value and expand_variables in an assignment are taken to succeed, and of get_message those of
-- the client; in a turn of the server they are an answer.
--
-- Fuel. `strtok_all` and `drain` take one round for each token or message and are started with the
-- length of the text and one more, which is enough as each round takes at least one byte; the
-- splitting theorems of Input and Socket use this. `write_loop` is started with the length and one
-- more, and never runs out. `serve_from` takes a round for each client, and is started with the
-- number of clients; a turn never adds one.
--
-- Not modelled. A signal in the middle of a round of `main`; the second shell that a server is when its
-- port is taken; a failed `malloc` where it is taken to succeed; a failed `fgets` in the chat client; links
-- in the tree of directories that lead back up, and a tree that changes while it is read. `clean_exit` of
-- src/server.c stands behind an endless loop. In the theorems about the rounds of the server no
-- connection is broken in a write: what a broken one does is stated of a single message.
pub mod Prelude
pub mod CString
pub mod Variables
pub mod Expand
pub mod Input
pub mod Jobs
pub mod Socket
pub mod Command
pub mod Processes
pub mod Display
pub mod Builtins
pub mod Files
pub mod Listing
pub mod Chat
pub mod Main
pub mod Client
pub mod ServerLoop
pub mod Hosting
