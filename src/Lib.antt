-- ===== src/Lib.antt =====
-- Verification of aws-c-auth: request signing with AWS Signature Version 4, the profile files that
-- hold its configuration and credentials, and the providers of credentials.
--
-- The parts and how they interact. A caller hands a configuration and a signable request to
-- aws_sign_request_aws, which checks the configuration and waits for a provider's credentials; the
-- callback then builds the canonical request, the string to sign and the authorization value, each
-- from the state that the stage before left, and completes with a signing result or an error. Profile
-- files are parsed line by line into collections, and two collections (configuration, credentials) are
-- merged into the one from which credentials are taken. Providers give credentials from the
-- environment, from profiles, from the instance metadata service or the token service over HTTP;
-- a chain asks several in turn and a cache keeps an answer. An HTTP request is made a signable, and
-- the signing result is applied to it.
--
-- Common: Boolean tests, byte strings, results with the error codes, hash tables as association
--   lists, qsort as an insertion sort (the comparators used make the order of equals immaterial, or
--   order by index).
-- External: the libraries below (aws-c-common, aws-c-cal, aws-c-io), as the record Library of the
--   routines that the code calls and the record Documented of their documented behaviour.
--   External/Example has a small instance of both, on which the tests run.
-- Signing: source/signing.c (Sign), source/signing_config.c (Config), source/signing_result.c
--   (Outcome), and source/aws_signing.c (State for the constants, tables and the state record,
--   Path, Query, Headers, Payload, Request, Authorization). What a stage writes is described in a
--   child of its module: Path/Canonical, Query/Canonical, Headers/Groups, Request/Front; these are
--   composed in Request/Canonical and, for the whole process, in Sign/Complete. Functions keep the source's names without
--   the prefixes s_ and aws_signing_; the parts of a long function have names of their own.
-- Profile: source/aws_profile.c (Chars for the character predicates and the consume helpers,
--   Collection, Merge, Lines for the three kinds of lines, File for whole files, Paths for the paths
--   of the files and the name of the profile).
-- Http: source/sigv4_http_request.c, a request as a signable and a result applied to it.
-- Providers: source/credentials.c and source/credentials_utils.c (Lifetime, the default chain in
--   Chain/Default, the cached token service in Sts), source/credentials_provider_cached.c (Cached,
--   among its clients and its source in Cached/World), _chain.c (Chain, the redirected shutdown
--   callbacks in Chain/Redirect), _static.c and
--   _environment.c (Basic), _profile.c (FromProfile), _imds.c (Imds) and _sts.c (Sts). The callbacks
--   of the HTTP library are functions on the query's user data, and a history of them is a row of
--   steps, which the invariants run over. Handover has the shutdown callbacks that a cache or
--   token service takes over from its source, where the calls are bounded by the providers' number.
-- Xml: source/xml_parser.c, the document and its nodes (Traverse), the declaration of a node, the
--   search for its end and its body. A callback is a function; the handler of STS responses is
--   Providers/Sts/Handler.
--
-- Conventions. A function that changes a struct returns the new one, and a fallible one a Result.
-- Where a function fails, its callers drop what it had changed, so an error carries no state. The
-- pointers of the parse context into the collection are names. A byte written through a raw
-- pointer behind an allocation is the error out_of_bounds_write, and the read of a variable that
-- was never set is the error indeterminate; an object that is destroyed once more behind its end is
-- the error freed_twice, and the code behind it goes on as if that did nothing. All loops run over lists and need no fuel but these:
-- a chain asks each member once, so that their number is enough; the search for the end of an XML
-- node, the traversal of its children and the preamble shorten the document in each round, so
-- that its length is; and nodes nest no deeper than the parser's limit, which the handler's fuel
-- is above; the read loop of the
-- payload runs over the reads that its environment gives, with the error unfinished where these
-- give no end of the stream.
--
-- Not modelled: memory runs out nowhere; clean up and destroy functions and logging have no
-- effect here, and reference counts only where the providers are concerned. The synchronous
-- aws_sign_http_request_sigv4 is left out, and so is the setting up of connections and of
-- providers that need them. Handover stands on a store of its own, apart from the reference counts
-- of Lifetime. A call under the lock of the cache is one step. source/auth.c has tables of
-- error strings and starts libraries. source/external/cJSON.c is another project's, and a
-- parameter of Providers/Imds.
pub mod Common
pub mod External
pub mod Signing
pub mod Profile
pub mod Providers
pub mod Http
pub mod Xml
