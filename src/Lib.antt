-- ===== src/Lib.antt =====
-- A model of docsifer, an HTTP service that converts files and URLs into Markdown, with the theorems
-- that make its parts correct.
--
-- The program. A request to `POST /v1/convert` passes the limiter of its client address and the
-- gate of the conversions, then it is checked (URL guard, extension, host), converted, and counted
-- by the analytics service in the background. The web interface converts by the same service, but
-- without the guard and the gate. Errors are values of one class hierarchy, and the
-- error handlers turn them into responses. Two loops watch the memory and the temporary directory.
--
-- The files.
--   Prelude: shared names, Boolean tests, dicts (Prelude/Dict), Python's `str` methods
--     (Prelude/Text), `int` (Prelude/Numerals) and `pathlib` names (Prelude/PathNames).
--   Exceptions: docsifer/exceptions.py.
--   Safety: docsifer/safety, a module for each file; Safety/Semaphore is `asyncio.Semaphore`.
--   Core: docsifer/core: url_guard.py, llm_registry.py, tokenizer.py, mime.py and html_cleaner.py,
--     and service.py in five parts: Core/Service (URLs and the choice of the converter),
--     Core/Service/Local (files), Core/Service/Dispatch (`_convert_sync`),
--     Core/Service/Clients (`convert_file`) and Core/Service/Workers (hanging jobs on its pool).
--   Api: docsifer/api: error_handlers.py, schemas.py, deps.py, middleware.py, v1/health.py and
--     v1/stats.py (Api/Probes), and v1/convert.py in three parts, Api/Upload (names and copy),
--     Api/Convert (one request) and Api/Server (any number of them on one gate and limiter).
--   Config: the defaults, validators and properties of docsifer/config.py.
--   Analytics: docsifer/analytics: the nested counters, the stores, the service, and the keys of
--     the buckets (Analytics/Periods).
--   Ui: docsifer/ui/gradio_app.py: the tables of statistics, the form and a conversion.
--   Main: docsifer/main.py: the lifespan, and the middlewares in their order with the handlers of
--     exceptions around and inside them (Main/Layers, Main/Layers/Replies).
--   Logging: docsifer/logging_config.py: the filter, the fields of a line, and the dict of
--     `configure_logging` (Logging/Setup).
--   Tests: runs at fixed inputs.
--
-- How the code is modelled. A class is a record of its attributes, and each method is a function
-- from the record to the record and the result. Code between two suspension points of asyncio is one
-- function, and a step relation (`Step`, `Reach`) puts such pieces in any order; so the gate, the
-- limiter, the breaker and the analytics service are studied under every interleaving. A raised
-- exception is `err` of Exceptions.Result. The endpoint is the list of its effects in order, in
-- a world that answers as it likes (Api/Convert.World); Api/Server lets many such lists run at once,
-- with the real gate and limiter for answers; there `rmtree`, which ignores its errors, may leave
-- a directory, which then is one of `Server.stuck`. A loop that waits is a function of the
-- list of its rounds.
--
-- Numbers are natural: times are whole milliseconds or seconds, sizes are bytes, and a negative
-- setting is read as 0, which the code's own `max` does for most of them. Texts are lists of code
-- points; case mapping is that of ASCII.
--
-- Fuel. `copy_loop` gets one round more than the body has bytes, and each round but the last reads
-- one at least. `inherited` looks up attributes three classes deep, as deep as the hierarchy is.
-- `decimal` has a round for each unit of its number. `scan_loop` gets as many rounds as the server
-- answers SCAN until the cursor is 0, and `sub` one for each character.
--
-- Parameters: `urlparse`, the resolver and `ipaddress` (Net), psutil (Readings), pydantic (Parsed),
-- markitdown (Converter), libmagic and `mimetypes` (Sniffer), selectolax (HtmlParser), the clock,
-- `TTLCache` with its laws, SHA-256, tiktoken, Starlette's headers and its own two middlewares, whose
-- order with its handlers of exceptions is written out as documented,
-- `str.isalnum`, and the random tokens. An analytics store is a parameter with the laws of an
-- atomic store, which InMemoryStore fills; the Redis server behind UpstashStore is a parameter with
-- the law of HINCRBY, and its SCAN and HGETALL with what a quiet server gives. The calendar behind
-- `strftime` is written out, for years with four digits, and so is what the thread pool of the
-- standard library does with jobs that never end. The disk of Core/Mime holds regular files.
--
-- Not modelled: the layout of the web interface, the routes and the mount of the interface, `ping`
-- and `close` of the stores, which only call the client and log, and the readers of the environment:
-- all of these are calls of the frameworks.
pub mod Prelude
pub mod Exceptions
pub mod Safety
pub mod Core
pub mod Api
pub mod Analytics
pub mod Config
pub mod Ui
pub mod Main
pub mod Logging
pub mod Tests
