-- ===== src/Lib.antt =====
-- Verification library of banjax, the plugin of Apache Traffic Server that challenges and bans bots.
--
-- Parts and files. A request goes to the filters in the order of their priorities
-- (src/transaction_data.cpp, Pipeline.antt). A filter answers with a `FilterResponse`
-- (src/banjax_filter.h, Filter.antt): let the request go on, serve it at once, or answer it itself.
--   * WhiteList.antt: src/global_white_list.h and src/white_lister.cpp, `insert`, `is_white_listed`,
--     `load_config`, `on_http_request`.
--   * Denialator.antt: src/denialator.cpp, `on_http_request`.
--   * Challenger.antt: src/challenger.cpp. Challenger/State has the fields, the challenges from Kafka
--     and their expiry; Answers has `check_sha` and `check_auth_validity`; Check has `check_cookie`;
--     Load has `load_config` and `parse_single_challenge`; Failures has `report_failure` and
--     `report_success`; Run has `on_http_request` with `needs_authentication`; Pages has
--     `generate_html` and `generate_response`.
--   * RegexManager.antt: src/regex_manager.cpp, `try_match` and `on_http_request`; the floating point
--     expressions are operations of a parameter, `Floats`.
--   * Swabber.antt: src/swabber.cpp and src/socket.h, `ban` with the grace period, `load_config`.
--   * IpDb.antt: src/ip_db.h. Kafka.antt: the messages of src/banjax.cpp about an address.
--     Commands.antt: `kafka_message_consume` of src/banjax.cpp. KafkaConsumer.antt: src/kafka.cpp, the
--     settings of librdkafka and the consumer thread beside reloads, as a step relation.
--   * Config.antt: the configuration in src/banjax.cpp. Config/Read has `process_config`, Priorities
--     and Build the two halves of `read_configuration` with `build_filters`, Start puts them together.
--     Merge joins the nodes of a filter (`merge_nodes` of src/banjax_filter.h).
--   * Plugin: src/banjax.cpp. State has `Banjax`, its destructor and what it hands over, Construct its
--     constructor, Start `TSPluginInit`, Lifetime the reloads and the transactions as a step relation,
--     Status the scheduled continuations.
--   * Muncher.antt: src/transaction_muncher.cpp, `retrieve_parts` in Request, the parts of the
--     response in Reply. BotSniffer.antt: src/bot_sniffer.cpp, whose log line is made of the parts.
--   * Pipeline/Dispatch.antt: `handle_transaction_change`, from the event of Traffic Server to the
--     queue of filters.
--   * Base64.antt, Cookie.antt, CookieHash.antt, Util.antt: src/base64.cpp, src/cookie.cpp,
--     src/cookiehash.cpp, and ranges, quoting and encryption of src/util.cpp.
--   * World.antt: the state that the filters share, and the surroundings that answer the calls of a
--     lock, the clock, a bind and the drawing of a captcha. Library.antt: OpenSSL, RE2 and the C
--     library, as one record of functions that the theorems quantify over.
--   * Base.antt: the shared names and lemmas. Tests.antt: the theorems at small inputs.
--
-- Conventions. A string is the list of its bytes, and `c_str` cuts it at a NUL. A function that C++
-- does not define for some input (an access outside a buffer, a shift by the width of the word)
-- returns `none` or a constructor of its own there. Other threads are seen through the outcomes of
-- the tries of the locks. Unsigned numbers wrap where the source lets them.
--
-- Bounds and fuel. `drain` has the number of collected bits as fuel, and takes 6 of them in each
-- round. `quote_loop` has one more than the length of the text, and takes up a quote in each round.
-- The loop over a cookie jar has one more than the length of the jar, and each round leaves less.
--
-- A call for URL_WITH_HOST makes one nested call, which does not ask for it: `retrieve_parts` has 2.
-- `process_config` has the depth to which files include one another; a file that includes itself
-- has no depth, and never ends in the source.
--
-- Not modelled: yaml-cpp, librdkafka, OpenSSL and Traffic Server, whose answers are parameters;
-- documents with anchors, whose nodes `merge_nodes` would share; the memory of the content type and
-- the release of handles; the reset of the plugin when the process exits; src/libcaptcha.c, the
-- library of another project; debug output.
pub mod Base
pub mod Base64
pub mod Cookie
pub mod CookieHash
pub mod Util
pub mod WhiteList
pub mod Filter
pub mod IpDb
pub mod World
pub mod Swabber
pub mod Library
pub mod Denialator
pub mod Kafka
pub mod Challenger
pub mod RegexManager
pub mod Muncher
pub mod Plugin
pub mod Config
pub mod BotSniffer
pub mod KafkaConsumer
pub mod Commands
pub mod Pipeline
pub mod Tests
