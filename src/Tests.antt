-- ===== src/Tests.antt =====
-- Tests of the definitions, and the theorems at concrete inputs.
mod Jsonlib
mod Protocol
mod Ring
mod BlockQueue
mod Formula
mod Http
mod Select
mod Plain
mod Pool
mod CtrlProc
mod NetCalculator
mod Chat
mod TcpServer
mod Poll
mod Level
mod Calc
mod Epoll
