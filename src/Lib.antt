-- ===== src/Lib.antt =====
-- The core of the Agent Execution Protocol (AEP), the package aep_core: how an agent calls an API
-- that is not idempotent so that a crash leaves a declared ambiguity and never a silent one.
--
-- A worker takes a lease on an execution, writes an intent for the call into the execution's state,
-- has Redis confirm that the write is durable, spends that confirmation on an authorization, passes a
-- preflight, and calls the provider once. It then writes what it knows of the outcome. Where it does
-- not know, or has died, a recovery service takes the lease, asks the connector, and writes
-- what the connector may assert. Every write is a compare-and-set by a Lua script inside Redis, fenced by
-- the lease and by the version of the state; the scripts carry the rules of the protocol.
--
-- Which file models which code:
--   Base                  the libraries' names and what the other files share; Lists, Texts
--   Floats                the numbers that Python parameters may be, NaN and infinity included, in
--                         aep_core/core/locks.py and aep_core/core/intent_workflow.py
--   Lua/Value             Lua values as cjson.decode makes them
--   Lua/Equal             deep_equal of the script in aep_core/core/intents.py
--   Lua/Keys              tables whose entries are counted
--   Lua/Script            how a script returns a code, or stops
--   Redis, Redis/Laws     keys, expiry, GET, SET, DEL, PTTL, PEXPIRE and the server's clock
--   Intents/Status        IntentStatus and LEGAL_INTENT_TRANSITIONS of aep_core/core/intents.py
--   Intents/Diagram       the same table as a relation
--   Intents/Cas           _INTENT_CAS_SCRIPT_BODY of aep_core/core/intents.py: Args (its arguments),
--                         Header (the reads, the fence, the frame), Creation, Update, Ledger (the
--                         branches and the last walk over the ledger); Accepted, Fence, History,
--                         Created, Eligibility, Kept, Absent, Uniqueness hold its theorems
--   Intents/Dispatch      the preflight and the authorization scripts of the same file; Gate and
--                         Handshake hold their theorems
--   Locks                 aep_core/core/locks.py: acquire_lock, release_lock, renew_lock
--   Locks/Lease           the parameters and the heartbeat of lease in the same file
--   Storage/Cas           _CAS_SCRIPT_BODY of aep_core/core/storage.py
--   Storage/Save          save_state and _quarantine of the same file, lua_state_validation_failure of
--                         aep_core/core/state_codec.py
--   Storage/Migrate       _migrate_schema of aep_core/core/storage.py
--   Storage/Read          get_state of the same file
--   Contract              aep_core/core/connector_contract.py
--   Recovery              recover_intent of aep_core/core/intent_recovery.py, backoff_ceiling of
--                         aep_core/core/intent_workflow.py, and the progress part of transition_intent
--                         of aep_core/core/intents.py
--   Recovery/Scan         scan_once of aep_core/core/intent_recovery.py
--   Store                 commit_transition and authorize_dispatch of aep_core/core/intents.py,
--                         dispatch_scope of aep_core/core/durability.py
--   Runner/Policy         ConnectorPolicy of aep_core/core/intent_workflow.py
--   Runner/Startup        validate_startup of WriteAheadRunner in the same file
--   Runner/Execute        the order of the effects of execute in the same file
--   StateCodec/Utf8       aep_utf8_check of aep_core/core/state_codec.py
--   StateCodec/Token      the tokens of aep_json_member_check in the same file: white space, strings and
--                         numbers; Strings and Numbers hold what they are compared with
--   StateCodec/Tree       the trees of JSON texts, which model no code: the check is compared with them
--   StateCodec/Check      parse_value, parse_object, parse_array and aep_json_member_check of the same
--                         file; Found, Sound, Reads, Rounds, Complete and Exact hold the theorems
--   StateCodec/Encode     encode_state of the same file with the json.dumps that it calls; Emits, Strings,
--                         Tree, Names, Legal and Accepted hold its theorem
--   StateCodec/Scripts    the check in front of the intent script: build_lua_state_validation_script
--   Requests/Names        the spellings of _SAFE_ID and _validate_safe_field_name in
--                         aep_core/core/request_binding.py
--   Requests/Rules        SafeValueRule and _validate_safe_value of the same file; Safe holds the theorem
--   Requests/Canonical    _canonical_value and canonical_json_bytes of the same file; Parts and Accepted
--                         hold the theorem
--   Requests/Boundary     issue, discard and consume of _build_dispatch_boundary of the same file; Issued
--                         and Spent hold the theorems
--   Lifecycle             any sequence of those scripts, lock operations and waits on one execution;
--                         Refines holds the machine of statuses that they implement
--   Durability/Ack        the registry of acknowledgements in aep_core/core/durability.py
--   Durability/Barrier    RealWaitAofDurabilityBarrier and confirm_durable_ack of the same file
--   Tests                 runs on concrete inputs, and each theorem at an input that meets its
--                         hypotheses
--
-- A script is one step on Redis, since Redis runs scripts one at a time. It is a function from the
-- state of Redis to an answer and a new state: the answer is a value, the code -n as reject n, or a Lua
-- error, which stops the script before it writes. Redis is a clock in milliseconds and a function from keys
-- to entries that may expire. A key is a constructor with its ids, as its text is a fixed prefix with ids
-- that hold no colon.
--
-- Lua numbers are natural: versions and attempts are integers, and times, which the source keeps as
-- seconds with six decimals, are counted in microseconds. The successors that the intent script computes
-- round as doubles do from 2^53 on; counts of entries stay far below. A conversion that tonumber refuses is
-- none. The order in which pairs visits a table is the order of its entries, and no theorem fixes that
-- order. The border of a table counts up from 1 with as much fuel as the table has entries, which is
-- enough, since a table has at most that many keys to count.
--
-- The scripts take cjson.decode and the raw check of JSON texts as arguments (Codec), and StateCodec/Scripts
-- puts the check of the source in their place. That check reads a list of bytes, and a position in it is the
-- list of the bytes from there on. Its recursion takes as fuel twice the number of bytes and one, which
-- is enough as each call but one in two consumes a byte. What it calls, cjson.decode of a name or of the
-- whole and tonumber, are arguments (Reader). Arguments too are the digests and hmacs of the
-- registries, the canonical text of a binding, the NFC normalization of texts, the parse of an execution id, the registry of migrators, what a connector declares
-- and answers, the drawn delays, and the answers of Redis to INFO, CONFIG and WAITAOF.
-- A Python text is a list of code points, and a finite float is the number that its repr writes. The recursion limit
-- of Python, far above the depth of 128 that the check in Lua allows, is left out.
-- The guard of 50 iterations in _migrate_schema is its fuel, and running out is an answer of its own.
--
-- The call of a script may lose its reply in save_state and in commit_transition, before the script runs
-- or after. A call of recover_intent takes what becomes of its calls as inputs.
--
-- Not modelled: the Python models of pydantic, other transport failures, logging, the watchdog of the lease,
-- decode_state, the rest of the request binding (decoding, descriptor, preparing and
-- verifying), its vault, run_forever, and everything outside aep_core, which is
-- experiments, analysis and text.
pub mod Base
pub mod Floats
pub mod Lua
pub mod Redis
pub mod Intents
pub mod Locks
pub mod Storage
pub mod Contract
pub mod Recovery
pub mod Durability
pub mod Lifecycle
pub mod Store
pub mod Runner
pub mod Requests
pub mod StateCodec
pub mod Tests
