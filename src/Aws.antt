-- ===== src/Aws.antt =====
-- The AWS side of the library: the log system that the AWS SDK writes to.
pub mod Levels
pub mod Sanitizer
pub mod LogSystem
pub mod System
pub mod CloudWatch
