-- ===== src/Command.antt =====
-- ospfd/command.rs: the line editor, the history of lines, the tree of commands and what they do.
pub mod Text
pub mod Editor
pub mod Menu
pub mod Parse
pub mod History
pub mod Numbers
pub mod Effects
