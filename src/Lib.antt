-- ===== src/Lib.antt =====
-- BeaconMCP: the stores and gates that decide who may do what, modelled and verified.
--
-- The program is an MCP server in Python. A client signs in over OAuth with a second factor, gets a bearer and
-- calls tools on Proxmox, SSH and BMC hosts; a dashboard serves the owner. This development models the parts
-- that carry its security and its accounting. Paths are from the repository's root.
--
--   Base      lists, results, Python dicts as association lists, equality as an interface, and Text, a text as
--             its code points for the code that looks inside it.
--   Clock     readings of the clock in whole microseconds, spans, deadlines.
--   Auth      beaconmcp/auth.py under src. Tokens is TokenStore: Types has its records, Store the writes to
--             memory and to tokens.db, Oauth minting, rotation, validation and revocation, Startup what a
--             restart reads back, Calls its public methods as a step relation. Codes is CodeStore and
--             verify_pkce. Clients is ClientStore: File is clients.json with its reload, Store its methods.
--   Limits    beaconmcp/ratelimit.py. Window is RateLimiter, Lockout is TotpLockout.
--   Peers     client_ip, forwarded_host and forwarded_scheme of beaconmcp/ratelimit.py, and
--             beaconmcp/hostguard.py, which asks forwarded_host what the application will take as the host.
--   Transfers beaconmcp/transfers.py: UploadLinkStore with its shared objects, and Upload, the endpoint.
--   Confirm   beaconmcp/confirm.py: the dialog before a destructive tool.
--   Dashboard beaconmcp/dashboard: Slugs is dyn_reg.py, Usage is usage.py, Sessions is session.py,
--             Confirmations is confirmations.py with csrf.py. Passkeys is passkeys.py: the credentials and
--             the challenges, and Service with the two ceremonies.
--   Oauth     the OAuth endpoints of beaconmcp/__main__.py, which compose the stores above. Oauth has
--             _validate_authorize_params with is_trusted_redirect_uri of auth.py, and the approval tickets;
--             Server the state that the handlers share; Authorize the authorize page and finalize; Passkey
--             the passkey sign-in; Grant oauth_token; Bearer auth_middleware; Flow all of these as steps.
--   Updates   beaconmcp/updates.py. Updates has the choice of the target and the signature check, Apply
--             apply_update, Watchdog the shell script that judges a restart.
--   Config    beaconmcp/config.py. Values has the values of a file and the small readers, Env the
--             placeholders, Proxies the trusted proxies, Ssh and Sections the sections of a file, Build
--             Config._build.
--
-- A method of the source is a function of the same name from the state to the answer and the next state. Each
-- reading of the clock and each random value that a method takes is an argument, in the order in which the
-- method takes them, so that a run is a list of calls with their times. A lock makes each method one step. An
-- exception is a value of an error type. A float of seconds is a whole number of microseconds, a price a whole
-- number of billionths of a dollar, so rounding of floats is not modelled. An SQL table is a dict by its
-- primary key; its writes are taken to succeed.
--
-- Parameters stand for what is not in the repository: the SHA-256 of a token (hash) and of a PKCE verifier
-- (s256), pyotp's check of a code, AES-GCM (seal and unseal), the test of equality of two addresses, the
-- pusher of an upload, urlparse, the webauthn library, git, pip and systemd as a host that runs commands on a
-- world of its own, and the conversions of Python in a configuration (str of a number or a container, int and
-- float) with the file system. What the theorems need of git and of a machine stands in the records GitLaws,
-- SignatureLaws and MachineLaws: git changes HEAD only by the commands that move it and tags only by fetching
-- them, a commit that verifies is signed, a tag that verifies is signed for the commit that it points to, time
-- does not run backwards while a command runs, and the programs that the watchdog calls return. Within one OAuth handler no other process
-- is taken to write clients.json. Digits and blanks in the output of git are those of ASCII.
--
-- The loop that trims the remembered sources of the lockout runs on fuel, one round for each entry: each round
-- drops one, so that many are enough. The watchdog waits on a clock: each round of its loop sleeps two seconds,
-- so a round for each second of the wait, and for each second of the settling, is enough. A program that the
-- watchdog calls may never return, a probe of /health included: then the script has no end, which is told apart
-- from a lack of fuel, and a theorem says that it ends where they all return. Every other loop follows a list
-- or the structure of a value.
--
-- Not modelled: HTML pages, the other HTTP routes, the command line, the wizard, the chat engine, metrics and
-- audit lines, and the calls of Proxmox, SSH and BMC services; of the updates the report of an available one
-- and the drift of the configuration; of the configuration the search for the file and the old environment
-- variables. Of the modelled parts, reads that only sort or format are left out, and so are the parsing of
-- addresses and the message of the confirmation dialog.
pub mod Base
pub mod Clock
pub mod Auth
pub mod Limits
pub mod Peers
pub mod Transfers
pub mod Confirm
pub mod Dashboard
pub mod Oauth
pub mod Updates
pub mod Config
