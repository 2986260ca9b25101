-- ===== src/Tui.antt =====
-- The terminal client's state, src/tui/app.rs: what one machine's pane shows (Machine), and the whole
-- client's selection, menu and commands (App).
pub mod Machine
pub mod App
pub mod Connection
pub mod Tests
