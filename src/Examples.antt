-- ===== src/Examples.antt =====
-- Tests of the model, and each theorem at an input.
mod Replacing
mod Pooling
mod Tables
mod OpenFiles
mod Nodes
mod Statements
mod Rows
mod Headers
mod Logging
mod Texts
mod Printing
mod Locking
mod Starting
mod Storing
