-- ===== src/Producers.antt =====
-- The three producers (productores/src): each waits, makes a message and sends it, for ever. A run is
-- given by what the calls of each round return.
pub mod FreeMemory
pub mod Published
pub mod RandomText
pub mod SystemLoad
