-- ===== src/Lib.antt =====
-- UniBase, a relational database server in C++: a model of its storage engine and what it keeps.
--
-- The server keeps tables as files of pages of 4096 bytes. The disk manager reads and writes pages, the
-- buffer pool keeps pages in frames and evicts by a replacer, the record manager lays records out in the
-- pages of a table, the index manager keeps B+ trees in pages, and the log manager defines the records of
-- the write-ahead log. On these stands the query side: the analyzer turns a statement of the parser into a
-- query over the metadata of the database, the planner turns the query into a plan, and the executors run it.
--
-- Base: shared names, Boolean tests, lists and association lists with native numbers, integers.
-- Errors: src/errors.h. Outcome: calls that change no state and may throw; strings.
-- Defs: src/defs.h. Common: src/common/common.h, values and conditions. Ast: src/parser/ast.h.
-- Meta: src/system/sm_meta.h, the tables, columns and indexes of a database and the lookups in it.
-- Meta/Text: its text, as `<<` writes and `>>` reads it; Meta/RoundTrip and Meta/Tables read back what was written.
-- Streams: the text streams of C++; Streams/Words and Streams/Reads: reads by the words of a text.
-- Analyze: src/analyze/analyze.cpp, over the metadata. Analyze/Owner: the table of a column; Analyze/Typed and
-- Analyze/Outcomes: what holds of the conditions let through.
-- Module Plan holds the classes of src/optimizer/plan.h, Planner the code of planner.cpp and optimizer.h beside
-- it, and Planner/Joins pop_conds, push_conds and the joins of make_one_rel. Placed, Pushed, Taken,
-- Joined, NextJoin, Loop, Rest, Scans and Plans show, in that order, what the plan of a select accepts: a
-- plan is read as a test of one row of each table, given which conditions hold of the rows. Inferred,
-- Analysed and Selected join the analysis to it.
-- System: src/system/sm_manager.cpp, over the two calls of the record manager as an interface;
-- System/Created: the tables after create_table; System/Shows: show_tables and desc_table;
-- System/Stored: create_table over the record manager.
-- Execution: the executors of src/execution that have code: the insert executor over the record manager, and
-- the columns of projections and of the right side of joins. Execution/Rows, Inserts and Columns: what they make. Execution/Manager:
-- src/execution/execution_manager.cpp, the rows of a query as the answer to the client; Execution/Answers.
-- Printer: src/record_printer.h and the buffer of src/common/context.h; its children Pieces, Count and Records say what of
-- a table is printed.
-- Replacer: src/replacer/replacer.h as an interface with laws. Replacer/Lru: lru_replacer.cpp; a list node
-- is a number that stands for its iterator.
-- Storage/Page: src/storage/page.h. Storage/Disk: src/storage/disk_manager.cpp; lseek, read and write act on
-- a file with a size, a limit and a position, so that short transfers and the exceptions that follow occur.
-- Storage/Disk/Files: its table of open files, with the answers of `open` as arguments; OpenFiles: its
-- invariant.
-- Storage/Pool: src/storage/buffer_pool_manager.cpp over any replacer; a method is a step of the pool, for
-- the latch is held throughout, and an exception keeps the state in which it was thrown. Its children:
-- Invariant (what every call keeps), Contents (what is seen of a page), Deletion (a defect of delete_page).
-- Bytes: the `int`s and the bits of a byte in memory.
-- Record: src/record/rm_file_handle.cpp over the buffer pool; a page handle is the number of its frame and
-- its pointers are offsets into the page. Record/Bitmap: src/record/bitmap.h. Record/Insert: insert_record.
-- Record/Scan: src/record/rm_scan.cpp; the rounds of `next` are bounded by an argument. Slots, Resident,
-- Touches, Rewrites, Methods, Deleting and Inserting state what the slots hold after each method, Reading what is then read; ScanSlots,
-- Scanning, Positions and NextRecord what a scan finds; Listing and Iteration the whole of it.
-- Record/Manager: src/record/rm_manager.h and the constructor of rm_file_handle.h, over the disk manager's table of
-- open files; its children Header, Steps, Creating and Reopened: a file that is created and opened.
-- Index: the search within a node, of src/index/ix_index_handle.cpp. The rounds of its loop are bounded by the
-- number of keys and one; Index/Search shows that they are enough. Index/Children: find_child and
-- internal_lookup. Index/Header: the header of an index file
-- (src/index/ix_defs.h) and the sizes that create_index chooses (ix_manager.h); RoundTrip and Sizes.
-- Transaction: src/transaction/txn_defs.h, transaction.h and get_transaction of transaction_manager.h;
-- Transaction/LockIds: the numbers of the objects of locks.
-- Portal: src/portal.h, from a plan to the statement that runs, over Execution/Trees, the executors with the
-- constructors that src/execution gives them; Portal/Started: what a statement starts with.
-- Recovery: the log records of src/recovery/log_manager.h and their bytes.
-- Examples: tests, and each theorem at an input.
--
-- An `int` in a variable is an integer without a range, but for the page offset, the page counter and the
-- count of records, which wrap at 32 bits, as do the `int`s that stand in memory. Pin counts, frame numbers and the
-- counts of a file header are never negative and are natural numbers. The loop of insert_record has no bound of
-- its own: the model bounds its rounds by an argument. A descriptor that `open` returns, and the room that the
-- device has for a file, are arguments.
-- A page is its 4096 bytes: what the record manager does with a slot outside of them is `undefined_behaviour`. Reads
-- and writes of a negative descriptor fail, and a descriptor that is closed is a file without bytes or room.
-- Not modelled: sockets, threads and terminals, with the handler of a client; generated lexer and parser code;
-- what the system calls do beyond the effects above; create_db and drop_db, which call the shell; `run` of the
-- portal; operations that the source leaves empty (most of the B+ tree, begin, commit and abort, the lock
-- manager, recovery, `Next` of every executor but the insertion).
pub mod Base
pub mod Errors
pub mod Outcome
pub mod Defs
pub mod Common
pub mod Ast
pub mod Meta
pub mod Analyze
pub mod Plan
pub mod Planner
pub mod System
pub mod Execution
pub mod Printer
pub mod Replacer
pub mod Storage
pub mod Streams
pub mod Bytes
pub mod Record
pub mod Index
pub mod Recovery
pub mod Transaction
pub mod Portal
pub mod Examples
