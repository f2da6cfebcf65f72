-- ===== src/Client.antt =====
-- client.cc and client.h: the client of a connection.
--
-- A method is a function on the client that runs from its start to its end, or to the wait it blocks
-- in. `compare_and_swap` right after the `load` of the state succeeds then, so that no `goto again`
-- repeats one; what the other thread does comes before or after.
pub mod Queue
pub mod State
pub mod Calls
pub mod Hello
pub mod Input
pub mod Stubs
pub mod Waiter
