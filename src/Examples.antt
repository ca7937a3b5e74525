-- ===== src/Examples.antt =====
-- Runs of the modelled code at concrete inputs, in one module for each group of components.
mod Calls
mod Together
mod Views
mod Terminals
mod Editors
mod Entry
mod Account
mod Cached
mod Strokes
mod Frame
mod Pages
mod Objects
mod Hidden
