-- ===== src/Dialog.antt =====
-- SchoolSystem: the client's main window and its dialogs.
pub mod ListCtrl
pub mod Show
pub mod RoundTrip
pub mod Statements
pub mod Edit
pub mod Inputs
pub mod Window
pub mod Arrival
