-- ===== src/Log.antt =====
-- C++高性能服务器/atpdxy/log/log.h and log.cpp: levels, the pattern of a formatter, what it
-- writes for an event, and the loggers with their appenders. A byte is a number.
pub mod Level
pub mod Pattern
pub mod Format
pub mod Logger
mod Examples
