-- ===== src/Lib.antt =====
-- Verification of antwatcher, a service that receives GitHub webhooks, puts them on a bus and
-- delivers them to sinks.
--
-- The program's parts and the files that model them:
--   Receiver  internal/receiver: the webhook handler. It checks the signature (Receiver/Signature), builds
--             the envelope, publishes it and answers (Receiver/Handler).
--   Event     internal/event: FromWebhook (Event/Envelope), ToMessage and FromMessage (Event/Message).
--   Bus       internal/bus: the contract of a bus (Bus/Contract) and the policy that resolves what it lacks
--             (Bus/Policy).
--   Sink      internal/sink: classes and instances (Sink/Contract), permanent errors (Sink/Errors), the set
--             of stalled messages (Sink/Stalled), the handler of a consumer (Sink/Router), the router
--             that binds and closes the consumers (Sink/Router/Build), the build of the configured sinks
--             (Sink/Registry), and SingleFlight with its callers as a step relation (Sink/Flight).
--   Recovery  internal/recovery: the attempts of a scan (Recovery/Decide), the pending set (Recovery/State),
--             the redelivery requests (Recovery/Redeliver) and the scan (Recovery/Scan).
--   Otlp      internal/otlp: the verdict on a failed attempt and the backoff (Otlp/Retry), and the export
--             loop (Otlp/Export).
--   Github    internal/ghclient: a target from the configuration (Github/Targets), the paged listing of
--             attempts (Github/Deliveries), and the search for a hook and the redelivery request
--             (Github/Hooks).
--   Archive   internal/sink/archive/jsonl.go: the bytes and lines of a file (Archive/Bytes), the finalized files
--             and their compression (Archive/Files), and the store (Archive/Store).
--   Forward   internal/sink/forward: the sink and its copies (Forward/Copy), the block of its bus driver, parsed and
--             described (Forward/Block), the checks and the factory of the driver (Forward/Target), and
--             its Publisher over a SingleFlight (Forward/Publisher).
--   Model     internal/model: the texts that identifiers are hashes of (Model/Ids), the time of an event and the
--             rank of a status (Model/Times).
--   Config    internal/config/bytesize.go: sizes with a unit (Config/ByteSize).
--   Prelude   Go's maps, errors, sorting, decimal numbers and texts, as the other parts use them.
-- A delivery enters through Receiver, crosses the bus as a Message and reaches each Sink; what never got a
-- 2xx is found by Recovery, which asks GitHub to send it again, so that it enters through Receiver.
-- The modules below a part (Sink/Router/Delivery, Recovery/Scan/Ends, ...) hold its theorems, the
-- modules named Tests its runs at concrete inputs.
--
-- How the code corresponds to the definitions: a function keeps its name (serveWebhook is serve_webhook,
-- record of stalledSet is record_failure); where it branches on an error or a lookup, the part
-- behind the branch is a definition of its own (serve_body, handle_decoded, discovered). A
-- section of code under a mutex is one step. State that a method changes is a record that is passed
-- on. A nil error is `none`, and an error is an Err with the text that fmt would give it.
-- Calls of code outside the repository are arguments: HMAC and hex, json.Unmarshal, RFC 3339,
-- Bus.Publish and Subscribe, the GitHub client, the OTLP transports, message.NewRouter and its
-- AddConsumerHandler, Decode of a yaml.Node, the describers of bus drivers, compress/gzip, SHA-256, net/url, TrimSpace and ToLower of strings, the factories of drivers. The
-- readings of a clock and the state of a context are arguments too, one for each time
-- that the code asks. In Archive every call of the operating system answers nil or an
-- error, which is an argument too, and a test for a file says whether it is there; a process that dies
-- in the middle of an operation leaves the files as that operation does when its next call fails.
--
-- Bounds: a time is a natural number of nanoseconds since Go's zero Time, a duration one of nanoseconds,
-- and the difference of two times is not cut off at Go's largest Duration; a window that would
-- start before the zero Time starts there. An id is a natural number, and the delays of a backoff stay
-- below Go's largest Duration. A text stands for a header or a body that is UTF-8. `%q` writes the
-- text in quotation marks without escapes, and a Duration is left out of an error's text. A Go
-- map is an association list: what a loop over it does is stated so that it does not depend
-- on the order. The export loop recurses on the retries left, the loop of a scan on its
-- candidates. Two loops run on fuel: the search for the last newline, for which the size of the file is
-- enough, and that for a free file name, for which the highest number in use is. The pages of a
-- listing are counted down from the source's own limit of 500.
--
-- Not modelled: log lines (but their number where the code paces them), a panic of a sink's Process, which
-- Watermill's Recoverer turns into a redelivery, the mux of the listeners, the
-- drivers of the buses, the sinks analytics and log, the configuration file, and the process itself. They
-- mostly call other libraries, or are wiring.
pub mod Prelude
pub mod Sink
pub mod Bus
pub mod Event
pub mod Recovery
pub mod Receiver
pub mod Otlp
pub mod Archive
pub mod Forward
pub mod Github
pub mod Model
pub mod Config
