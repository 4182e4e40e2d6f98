-- ===== src/Lib.antt =====
-- A verification library for Haven, an end-to-end encrypted messenger in Python.
--
-- The program. Beacons on the local network make peers known (haven/discovery.py). Two peers that know each
-- other's identity key agree on a root key and run a ratchet over one channel (haven/crypto.py), over a
-- direct socket or through a relay (haven/network.py); a client registers with the relays that the settings
-- name (haven/config.py) and reconnects (haven/relay_client.py), and the relay queues sealed messages until
-- they are acknowledged (haven/relay_server.py); sessions, messages and groups are kept encrypted in a local
-- database (haven/storage.py), which a backup file takes to another device (haven/backup.py); groups send
-- each message once to every member over those channels, under a chain of the sender's own
-- (haven/groups.py), and calls use the same channels (haven/calls.py); a desktop user's identity key stands
-- in a file that a password or a recovery phrase unlocks (haven/identity.py, haven/recovery.py); the browser
-- client keeps its encrypted
-- identity at an accounts service (webapp/accounts_server.py, with its tables in webapp/accounts_db.py).
--
-- The files.
--   Prelude: shared names; Result and Exn for what raises (Prelude/Errors), Exec for methods that change
--     an object and may raise (Prelude/Exec), dicts in insertion order (Prelude/Dict), Boolean tests on
--     the native numbers, lists, and the printing and
--     reading of integers, strip and split (Prelude/Decimal).
--   Crypto: haven/crypto.py. Crypto/Primitives has the functions taken from `cryptography`, hashlib and
--     hmac as a record of parameters, with their documented laws. Crypto/Keys models KeyPair, _dh, _hkdf,
--     dh_proof, compute_shared_root_key, derive_chain_keys and fingerprint; Crypto/Ratchet ratchet_step,
--     RatchetSession and SenderKeyChain; Crypto/AtRest the ciphers for what is stored; Crypto/Hex bytes.hex
--     and bytes.fromhex. The rest are proofs:
--     Crypto/Handshake, Crypto/Ratchet/Forgery, Crypto/Delivery (two sessions and the messages in flight).
--   Relay: haven/relay_server.py. Relay/State has RelayServer, ClientHandle and the frames, Relay/Handshake
--     _do_handshake_sync and _do_handshake_async, Relay/Server the queue, _handle_frame, the registry and
--     the life of a TCP connection, Relay/WebSocket that of a WebSocket connection. The files below them
--     prove.
--   Groups: haven/groups.py. Groups/State has GroupManager, the control frames and the helpers,
--     Groups/Manager what the user does, Groups/Inbound handle_incoming. Groups/Letters, Messages, Stream,
--     Membership and Removal prove.
--   Calls: haven/calls.py. Calls/State has CallManager, the call frames and the media threads that were
--     started, Calls/Manager the operations and handle_incoming. Calls/Media and Invariant prove.
--   Accounts: Accounts/Names usernames, Accounts/Limiter SimpleRateLimiter, Accounts/Secrets _hash_secret
--     and _verify_secret over argon2 and bcrypt as parameters, Accounts/Db AccountsDB, Accounts/Server the
--     endpoints, Accounts/Search the people search, Accounts/Friends the mutual friends. The files below
--     them prove.
--   Identity: haven/identity.py and haven/recovery.py. Identity/Phrase has the recovery phrases,
--     Identity/Local the two unlock files and create_account, sign_in and reset_password_with_recovery,
--     Identity/Cards contact cards. Identity/Unlock and the files below Identity/Cards prove.
--   Storage: haven/storage.py. Storage/Tables has the five tables, sessions and messages, Storage/Contacts
--     the contacts, Storage/GroupRows the groups and how GroupManager writes and reads them. The rest prove.
--   Network: haven/network.py and haven/relay_client.py. Network/Framing has the frames on a socket,
--     Network/State NetworkManager, PeerConnection, _derive_session and _register_connection,
--     Network/Messages _handle_incoming_msg, send_text and is_connected, Network/Relayed the sessions over a
--     relay, Network/Direct those over sockets, Network/Waiting send_when_ready, Network/RelayClient
--     RelayClient. The files below them and Network/Invariant prove.
--   Backup: haven/backup.py. Backup/RoundTrip proves.
--   Discovery: haven/discovery.py, the table of peers on the local network. Discovery/Heard and Peers prove.
--   Ai: haven/ai.py, offline translation and call captions. Ai/Captions proves.
--   Desktop: haven/gui.py. Desktop/Routes has the table of contacts and the choice of a way to one,
--     Desktop/Contacts the adding of one by a card, Desktop/Sending the sending of messages with its queues
--     and timers, Desktop/Windows the call windows with their captions. The files below them prove.
--   Attachments: haven/attachments.py. Attachments/Base64 writes base64 out. Attachments/Sizes proves.
--   Settings: haven/config.py, the settings file with the user's relays. Settings/Relays proves.
--   The modules Examples and Network/Meetings hold runs on small inputs.
--
-- Conventions. A method that may raise returns its result or the exception beside the state that it has
-- written by then. What os.urandom, uuid4 and the clock give are arguments. A text is the list of its code
-- points; lower-casing is that of ASCII. Indices of the ratchets are unbounded naturals, as Python's are,
-- and packing one into eight bytes raises at 2^64; theorems about runs of messages state that bound. A
-- loop runs over the list of what it reads, or of its turns. Of the two loops on fuel, that of _recv_exact has
-- a turn for each byte wanted, which is enough, for a turn reads one byte at least, and the one that prints
-- a number n has n + 1 turns for its digits. A JSON field is the
-- value that reading it gives or the exception that reading it raises.
--
-- Interleavings. The relay's state is changed under one lock or on one event loop: its runs are lists of
-- events (a connection, a frame, a break). A run of the accounts service is a list of requests to the
-- endpoints of the accounts, each one step. A run of a network manager is a list of events: a step is what
-- a thread does from one read of a socket to the next, or with one relayed frame, and it is not interrupted.
-- An accepted connection is thus read later, frame by frame, while other threads go on, and the answer to a
-- greeting comes later; a connection is an object with a number, so that a reading thread keeps the
-- connection it began with when a newer one takes its place. In Crypto/Delivery sends and deliveries of the
-- two peers come in any order. In Groups/Stream a message's frame is delivered before the next message is
-- sent. In Calls an operation ends before the next begins, though the class has no lock. What Tk does in
-- Desktop is one step each; in Desktop/Windows a network thread's test and its feed are apart. Discovery has
-- a step for each datagram and each removal.
--
-- Not modelled: sockets, threads, TLS, the asyncio loop, SQLite's files and migrations, JSON text, HTTP
-- middleware, the translation proxy, the widgets of the desktop client, audio and video devices, models
-- of speech and language, and the browser client in JavaScript. The peer network that carries the groups'
-- frames is an outgoing log in Groups, and the callbacks of the network manager are a log in Network.
pub mod Prelude
pub mod Crypto
pub mod Relay
pub mod Accounts
pub mod Groups
pub mod Calls
pub mod Identity
pub mod Storage
pub mod Network
pub mod Backup
pub mod Discovery
pub mod Settings
pub mod Ai
pub mod Desktop
pub mod Attachments
