-- ===== src/Lib.antt =====
-- SIPMediaGW: a fleet of gateways that bridge SIP and room systems to web conferences, the proxy
-- that allocates them, the scaler that starts and stops their machines, the history of their calls,
-- and the console that administers it. This library models the decisions of these programs and
-- proves what they are for.
--
-- Parts, with the paths of the repository:
--   Prelude, Text, Outcome: Boolean tests, lists, Python's dict and str, and what a handler answers.
--   Proxy (deploy/proxyAPI/proxy.py): the registry is in Redis, one entry for each gateway, the
--     pairing codes and the counters of failed codes. Proxy/Redis is the interface of Redis with its
--     laws, which Proxy/Redis/Memory meets; every handler is a function of the store and of the time,
--     and those that change something return the store. Proxy/Entry: gwLoad, gwDump, cleanPart,
--     deriveState. Proxy/Access: authorize*, callerAddress, tooManyCodeTries, noteFailedCodeTry.
--     Proxy/Pairing: /pairing/resolve, /interact. Proxy/Pool: findAvailableGateway, /start, /stop,
--     updateProgressInfo, the monitor, /register, /unregister. Proxy/Peer: gatewayIdFromPeerUri.
--     Proxy/Status: /status and genericGatewayProxy. A handler that calls a gateway is two functions,
--     the one before the call and the one from its answer on, so that requests can be interleaved;
--     the answer is an argument.
--   Manager (manager): Throttle, Session and Login are auth.py and the login of app.py, Users is
--     users.py with the constraints of db/schema_users.sql on an INSERT, Accounts is api/users.py.
--     The state is the list of the rows with the audit lines, the failures by address, and the
--     cookie's content.
--     Units is api/org_units.py with the functions of db/schema_org_units.sql that attach a call to
--     an entity: Units/Order the order of the rules, Units/Routes the writes.
--     Periods is api/periods.py: Periods/Calendar the dates of Python, Periods/Filter unitFilter.
--   SipUri, History (src/logParse.py): the forms of an address; History/Lines and History/Parser,
--     what main writes for a line of a log; History/Push, the history file that several parsers
--     write, its reading and the push of it; buildPayloadFromLines as a pass over the records of the
--     history (History/Fold) and a payload made of its state (History/Payload).
--   Gateway: Names, the display name by which deploy/kamailio/config/request_gw.py tells a gateway
--     which room was dialled; Events (src/event_handler.py), the callback for the events of baresip;
--     Netstring (src/netstring.py), the messages of a socket, which is a function from what it holds,
--     with the decoding of UTF-8 in Netstring/Utf8; Launcher
--     (HTTPLauncher.py), the arguments of SIPMediaGW.sh, the status of a gateway, which the proxy
--     reads, and the commands; Browsing (src/browsing.py), the watch that ends a deserted conference.
--   Ingest (manager/ingest/mapping.py): the rows that the console stores for a call and its media;
--     Ingest/Values is JSON with the numbers that Python reads from it, Ingest/Pictures the summary of
--     the samples.
--   Scaler (deploy/scaler/src/Scaler.py, ScalerMedia.py): upScale, the slots and the decision
--     of scale, downScale and cleanup on the entries that the proxy keeps.
--
-- The loops run over lists (the ids of a scan, the lines of a history, the polls of a file before
-- the deadline); the loop over the packets of a message has as much fuel as bytes are left, which is
-- enough as each round asks for one at least. Times are natural numbers in the unit that each file names.
--
-- Not modelled: HTTP, SQL and Redis themselves, files, browsers and processes; base64, scrypt, the
-- reading of dates, of URLs and of networks, which are parameters; the random pairing code, which is
-- an argument; floating-point rounding (the quotient by loadMax is a parameter); prints and logs.
mod Prelude
pub mod Outcome
pub mod Text
pub mod SipUri
pub mod Proxy
pub mod Manager
pub mod History
pub mod Scaler
pub mod Gateway
pub mod Ingest
