-- ===== src/Tests.antt =====
-- A concrete JSON library, and the theorems at concrete inputs.
mod Sample
mod Types
mod Protocol
mod Converter
mod Registry
mod ServerSession
mod ClientSession
mod Client
mod Server
mod FunctionTraits
mod Calculator
mod Examples
mod Programs
mod EventLoop
mod AsyncClient
