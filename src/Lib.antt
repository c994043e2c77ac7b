-- ===== src/Lib.antt =====
-- The Jibit SDK: a client for the Jibit payment services (src/jibit).
--
-- The parts and how they interact. A service (services/) validates its request and hands the options
-- of an operation to a request executor. The executor attaches a token (auth/authenticated.py) that
-- the provider (auth/provider.py) takes from a token store or requests with the engine itself. The
-- engine (engine.py) sends the request through a transport, asks the retry policy (retry.py) after
-- each attempt that failed, and turns an unsuccessful response into an error of the hierarchy
-- (exceptions.py). What is logged or audited on the way is redacted (redaction.py, logging.py).
-- The client (client.py) builds a facade for
-- a service, with its executor, when the service is first asked for. Callbacks come in through
-- webhooks/base.py.
--
-- The files.
--   Prelude, Json, Unicode    shared helpers; decoded JSON values; Unicode's digit, word and case tables
--   Types, Models, Exceptions, Config, Transport, Logging, Response
--                             the modules of src/jibit with those names
--   Redaction                 redaction.py: Keys is the key test, Masks the text patterns
--   Effects                   calls that touch the outside. Counts, Ends, Keeps, Delivers and Silent hold the
--                             rules for counting events, for outcomes, for what stays true of the
--                             history, for events that come before a return, and for actions that
--                             change no outcome
--   Retry, Engine             retry.py and engine.py
--   Auth                      auth/: Tokens, Store, Specs, Provider, Authenticated (also static.py),
--                             Redis, Django, and Prefixed for what these two share, Locks
--   Services                  services/base.py in Base; Gateway, Transfer, Cobank, DirectDebit, Sms,
--                             Contracts, Kyc and Identicator are the packages of services, each with
--                             its models.py in Models; Fields, Patterns and Facade are what they share.
--                             Careful is what a service may expect of its executor, Safety and the
--                             modules Once are the operations that must not be repeated
--   Client, Django            client.py and django/client.py
--   Webhooks                  webhooks/base.py
--   Tests                     runs on concrete data
--
-- How the code is modelled. A method of the code is a function with the method's name in a state
-- monad: a world is the history of the calls made to the outside, newest first, and the state of the
-- token store. Exceptions are the `raised` outcomes. What the outside answers (the transport,
-- clocks, random numbers, the audit sink, json.loads, base64) is a field of the parameter
-- `Environment`, a function of the whole history where it may vary in time; other workers are the
-- field `others` of a token store, which may change the store before each access. A write to the
-- store, and the taking or releasing of a lock, may raise too. Where urlsplit raises is a field of
-- `Environment`. pydantic is a parameter too: a model is a function from a decoded value to the
-- validated value, if there is one. Durations are whole microseconds, ratios and random numbers
-- whole millionths. Texts are sequences of code points.
--
-- Fuel. `while True` in `execute` runs on fuel of one more than `max_attempts`, since each retry
-- raises the attempt number and the policy refuses at the limit. The loops of the text patterns run
-- on the length of the text.
--
-- The parsers of UUIDs and of network addresses, and the base64 and JSON functions that only one service
-- uses, are arguments of that service's operations; the clients of Redis and of Django's cache are
-- arguments of their stores, with what they are relied on for as hypotheses. A lock of a process is the
-- number of locks made before it.
--
-- Not modelled: `HttpxTransport`, which only calls httpx; the base classes of models.py, which
-- configure pydantic, and the validation that pydantic does on types; the `__repr__` methods and the
-- result models of pydantic. `lower` and `upper` of Prelude/Text change the letters a to z only.
pub mod Prelude
pub mod Json
pub mod Models
pub mod Unicode
pub mod Redaction
mod Tests
pub mod Types
pub mod Exceptions
pub mod Config
pub mod Transport
pub mod Effects
pub mod Retry
pub mod Engine
pub mod Logging
pub mod Response
pub mod Auth
pub mod Services
pub mod Client
pub mod Django
pub mod Webhooks
