-- ===== src/Tests.antt =====
-- A board on which the properties are tried out: the sample softc has two processes with IRQs of
-- their own, and the sample devices answer every read with 0, or with every digit set.
mod Board
mod Rings
mod Sides
mod Instructions
mod Files
mod Panels
mod Link
mod Memory
mod Irqs
