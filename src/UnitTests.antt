-- ===== src/UnitTests.antt =====
-- unittests/src: tables of the unit tests, run on the definitions here.
mod CloudWatch
mod ConsoleJson
mod Log
mod Logger
mod Logging
