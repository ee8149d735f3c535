-- ===== src/Automata.antt =====
-- Automata: the three finite automata. Input is a list of bytes, `getchar` takes the first one, and
-- the end of the list is EOF. Prints are left out.
pub mod Cycle
pub mod Digits
pub mod Aab
mod Tests
