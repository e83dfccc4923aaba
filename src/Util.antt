-- ===== src/Util.antt =====
-- src/util.cpp: the version check, quoting for the log, and IPv4 ranges.
-- `inet_addr` after `ntohl` is the parameter `inet`: the address as a number below 2 ^ 32, with
-- 2 ^ 32 - 1 (`INADDR_NONE`) for what is no address. `std::stoi` is the parameter `stoi`: `none` is
-- its exception, and a negative number is the `unsigned int` that it is converted to.
pub mod Masks
pub mod Quotes
pub mod Encrypt
unfoldable pub use Masks.*
unfoldable pub use Encrypt.*
unfoldable pub use Quotes.*
