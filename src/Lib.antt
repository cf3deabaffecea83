-- ===== src/Lib.antt =====
-- litehttpd: .htaccess support for an HTTP server, as a module in C. For every request the module
-- collects the .htaccess files from the document root down to the directory of the request, parses
-- them into lists of directives, merges the levels, filters them by AllowOverride and flattens
-- IfModule containers; then one executor after the other reads the merged list and acts on the
-- request through the server's interface. Two executors, brute-force protection and the rate limit,
-- keep counters in one shared store.
--
-- Which file models what:
--   Prelude     shared names; Prelude/Text has C strings as lists of bytes with strtoul and strtol for
--               a 64-bit long, Prelude/Tokens has strtok_r, Prelude/Bits the laws of bit masks
--   Cidr        src/htaccess_cidr.c for IPv4: parse_ipv4, cidr_parse, cidr_match, ip_parse,
--               prefix_to_mask; Cidr6 has the IPv6 half
--   Shm         src/htaccess_shm.c, the built-in store: an open-addressing table with linear probing
--               and tombstones; builtin_shm_get, _update, _cleanup, _atomic_increment
--   Directive   include/htaccess_directive.h and include/htaccess_expr.h: directives as linked lists
--               of nodes whose union is a data type; directive_category of src/htaccess_directive.c;
--               Directive/Typed says which member and which strings each type needs
--   Parser      src/htaccess_parser.c: the scanner of a line, the parser of each directive, parse_line as
--               a table of keywords, the tags, and htaccess_parse as a step on its local variables,
--               with the stacks of open IfModule and If blocks
--   Printer     src/htaccess_printer.c: print_directive, htaccess_print
--   Cache       src/htaccess_cache.c, the built-in table: builtin_cache_init, _get, _put
--   Dirwalk     src/htaccess_dirwalker.c: the paths, read_and_cache and the loop over the levels, deep
--               copies, merge_directives, filter_by_allow_override, flatten_ifmodule; expr_clone of
--               src/htaccess_expr.c
--   Expression  src/htaccess_expr.c: expr_expand_var, the tokenizer, the recursive-descent parser,
--               expr_eval and expr_to_string
--   CidrTable   src/htaccess_cidr_table.c
--   Auth        src/htaccess_exec_auth.c: base64_decode, htpasswd_check, exec_auth_basic
--   Redirect    src/htaccess_exec_redirect.c
--   Acl         src/htaccess_exec_acl.c: exec_access_control
--   Require     src/htaccess_exec_require.c: exec_require with RequireAny and RequireAll
--   BruteForce  src/htaccess_exec_brute_force.c over the store of Shm
--   RateLimit   src/htaccess_exec_ratelimit.c over the store of Shm
--   Expires     src/htaccess_expires.c and src/htaccess_exec_expires.c
--   Lsi         what an executor answers to the server
--   Tests       runs at concrete inputs
--
-- State is passed explicitly: an executor takes the store and returns it with its reply. `none` is a
-- null pointer or the -1 of a parser. A field of w bits keeps its wrap-around (`% 2 ^ w`). Times and
-- counts are natural numbers; where the executors with counters compare ints, an int is its pattern of
-- 32 bits (Prelude/Ints).
-- The probe loops of Shm run on the capacity as fuel, which is how often the source's loops go
-- round; the loop over pairs of a number and a unit in Expires runs on the length of the text, and
-- each of its passes reads a digit.
--
-- The parser of expressions runs on 33 as fuel, in its recursion and in each of its loops: the source
-- counts every nested call and every && and || in a depth of at most 32.
--
-- The parser of files reads lists of lines and of bytes by structural recursion; its loops over the
-- words of RateLimit and Options and over the flags in brackets run on the length of their text, and
-- each of their passes takes a byte. A number is printed on 10 as fuel: an int has 10 digits at most.
--
-- Parameters: inet_pton(AF_INET6, …) as a function from texts to 16 bytes, and whether the server
-- has an environment variable; the parser and the milliseconds that it takes, for the walk;
-- crypt_r, realpath, stat and the opening of files; qsort; the regular expressions, which
-- src/htaccess_regex.c takes from PCRE2. What the server answers about a request is a record or an
-- argument. The files do not change while one walk reads them.
--
-- Not modelled: the server's shared-memory backends of the store and of the cache, which are the server's code;
-- failing calls of malloc; logging; the sleep of the throttle action; the text of the Expires date;
-- the rewrite engine, edge side includes, the bot challenge and the executors that pass values on to the server; the
-- configuration converter and the firewall daemon, which are programs of their own.
mod Prelude
pub mod Cidr
pub mod Shm
pub mod Directive
pub mod Dirwalk
pub mod Lsi
pub mod Cidr6
pub mod CidrTable
pub mod Acl
pub mod Auth
pub mod Cache
pub mod Require
pub mod BruteForce
pub mod RateLimit
pub mod Expires
pub mod Redirect
pub mod Expression
pub mod Parser
pub mod Printer
mod Tests
