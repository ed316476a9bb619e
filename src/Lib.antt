-- ===== src/Lib.antt =====
-- A Home Assistant integration that lists the WireGuard connections of a Fritz!Box router and switches
-- them on and off.
--
-- The program. `fritzboxvpn/fritzboxvpn` talks to the box: `session.py` logs in, lists the connections
-- by one of two requests and switches one, and `parsing.py` brings the answers into one shape.
-- `custom_components/fritzbox_vpn` is the integration: the coordinator (`coordinator.py`) polls the
-- session, gets through outages and restarts of the box, counts missing connections, and renames
-- connections whose uid has changed (`uid_identity.py`) in the registries of Home Assistant.
--
-- The files.
--   Base        what all share: Booleans and the conditional, Python's texts, dictionaries and sets
--   Value       JSON values with Python's `str`, `int` and truth; a native text is a Python `str`
--   Parsing     fritzboxvpn/fritzboxvpn/parsing.py, a function for each function
--   Outcome     exceptions as values: a method is a function on a state that returns or raises, and
--               what it changed before it raises stays changed
--   Session     fritzboxvpn/fritzboxvpn/session.py. State: the object and the Transport; Login:
--               `_fetch_login_page`, `_try_get_session_via_pbkdf2`, `async_get_session`; Listing:
--               `_fetch_listing_by_mode` up to `async_get_vpn_connections`; Toggle:
--               `async_toggle_vpn`; Logic, Valid and the children: proofs
--   UidIdentity custom_components/fritzbox_vpn/uid_identity.py
--   Coordinator custom_components/fritzbox_vpn/coordinator.py. State: the fields; Interval: the update
--               interval and the windows; Recovery: `_arm_recovery` up to `_note_successful_poll`; Uids:
--               the remap, the misses and `resolve_connection_uid`; Poll: `_async_update_data` and
--               `toggle_vpn`; Reach: the runs; Published: a poll over Adapter and Session; the others: proofs
--   Runtime     custom_components/fritzbox_vpn/models.py: the uids that the platforms know
--   Registry    custom_components/fritzbox_vpn/entity_registry.py. State: what it reads of the
--               registries, and its changes; Ids and EntityIds: unique ids and entity ids; Remap:
--               `remap_connection_uids`; Home: what is changed; Carried: the repairs, carried out;
--               Removal: the removals; Repairs: orphaned and unexpected entities and the proposed
--               repairs; Merges: `get_orphan_base_suffix_merges`
--   Platform    custom_components/fritzbox_vpn/entity.py with switch.py, sensor.py and binary_sensor.py:
--               `setup_vpn_platform`; Data: what the entities of a connection show; Entities: their
--               classes and constructors, and what each platform makes; Switched: the turning of a switch,
--               down to the web session; the others: proofs
--   Diagnostics custom_components/fritzbox_vpn/diagnostics.py
--   Adapter     custom_components/fritzbox_vpn/fritzconnection_session.py: the session by the library
--               fritzconnection, which falls back to the one of Session; Calls: its public calls;
--               Origin: how a call ends
--   Config      custom_components/fritzbox_vpn/const.py: the readers of a configuration
--   Forms       custom_components/fritzbox_vpn/flow_forms.py. Address: `ipaddress.ip_address`; Host:
--               `validate_host`; Schema: the schemas; Submit: submitted values; Validation:
--               `validate_input` and its failures; the others: proofs
--   Source      custom_components/fritzbox_vpn/fritz_config_source.py
--   Discovery   custom_components/fritzbox_vpn/ssdp_unique_id.py
--   Flow        custom_components/fritzbox_vpn/config_flow.py. Steps: the steps of `ConfigFlow`; Calls:
--               any of them, in any order; Options: `OptionsFlowHandler`
--   Setup       custom_components/fritzbox_vpn/__init__.py. Services: their registration; Handlers: what
--               they do; Entry: set-up, unloading, reload and migration of an entry
--
-- What is a parameter. Transport stands for aiohttp's client, `asyncio.sleep`, the decoders of JSON
-- and XML and the digests; the world behind it is any type. A poll's Event holds the outcome of the
-- listing, two readings of the clock in nanoseconds, whether the config entry is loaded and the
-- answer of the registries to a remap. Registries stands for the registries of Home Assistant as
-- they are read before the first change, and `slugify`; the changes are listed in order and are
-- taken to succeed, since the source does not expect them to fail. The constructors of entities
-- are a function with the contract IsFactory, which those of the three platforms meet. Library stands for fritzconnection. Between
-- polls the base class may set the coordinator's `data` to anything. Home stands for the registries as
-- they are changed by repairs and removals, which may raise, and for the config entries, each with its
-- runtime data and whether its state is loaded. Box
-- stands for the network behind the session that tests credentials, Parsers for the parsers of URLs
-- and UUIDs, `is_wide` for Unicode's letters outside of ASCII. A step of a flow takes what Home
-- Assistant answers in it as arguments: the entries of other integrations, the unique ids in use.
--
-- Loops and fuel. Every loop is recursion on its list, but the one of `resolve_connection_uid`: that has
-- as much fuel as there are remaps and one more. The loop of `host_from_ssdp_usn` has as much as the text
-- has characters and one more. The second try of `async_get_vpn_connections` and of
-- `async_toggle_vpn` is written out, since the source makes it once.
--
-- Not modelled. Logging has no effect on the state. Two tasks that use one session at once are
-- not interleaved: the source takes no lock there, and every method is modelled as one step of its
-- task. A set is a list without order by intent, in the order of some iteration. The device
-- classes of entities, which choose icons, are left out. A callback of the coordinator is taken to return. The texts
-- of log messages and the names of keys are no definitions: keys are written where they are used.
pub mod Base
pub mod Value
pub mod Parsing
pub mod Outcome
pub mod Session
pub mod UidIdentity
pub mod Config
pub mod Forms
pub mod Source
pub mod Discovery
pub mod Coordinator
pub mod Runtime
pub mod Registry
pub mod Flow
pub mod Setup
pub mod Platform
pub mod Diagnostics
pub mod Adapter
