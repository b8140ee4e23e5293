-- ===== src/Lib.antt =====
-- The core of the HomeKit accessory firmware: the type-length-value messages, the table of paired
-- controllers with its copy in flash, the table of secure sessions with the subscriptions that hang
-- on it, the requests that add, remove and list pairings, the exchange that opens a secure session,
-- the encrypted transport, and the database of accessories, services and characteristics.
--
-- Files, with their code under arduino/libraries/Homekit/esp_hap_core/src:
--   Tlv          esp_hap_pair_common.c: hap_tlv_data_init, add_tlv, get_value_from_tlv,
--                get_tlv_length, hap_prepare_error_tlv. Tlv/Codec has an encoder of whole records,
--                Tlv/Writing and Tlv/Extent the theorems.
--   ByteConvert  byte_convert.c: get_uW_le, put_uW_be and their like.
--   Hexbin       hexbin.c: hex2bin_byte, hex2bin.
--   HapPriv      priv_includes/esp_hap_database.h, esp_hap_controllers.h, esp_hap_pair_common.h:
--                the part of hap_priv that the modelled code uses.
--   Keystore     what the controllers need of esp_hap_keystore.c, as an interface.
--   Nvs          esp_hap_keystore.c and, in arduino/libraries/Homekit/esp_hap_platform/src,
--                hap_platform_keystore.c: Nvs/Content has the lemmas on what the flash holds, and
--                Nvs/Implementation the instance of the interface, with its theorems; Nvs/Starting is
--                about hap_keystore_init.
--   Controllers  esp_hap_controllers.c; the theorems are in Controllers/Table (searches of the
--                table) and Controllers/Persistence (the table and the key store).
--   Sessions     esp_hap_pair_verify.c (lines 64 to 156) and the notification bitmaps of
--                esp_hap_char.c; the theorems are in Sessions/Subscriptions (one bitmap),
--                Sessions/Slots (the table) and Sessions/Lifecycle.
--   Pairings     esp_hap_pairings.c; the theorems are in Pairings/Tables (what a table keeps),
--                Pairings/Adding, Pairings/Removing and Pairings/Access (who may ask).
--   Transport    esp_hap_network_io.c: the encrypted frames of a session. The theorems are in
--                Transport/Frames (the reading of one packet), Transport/Receiving,
--                Transport/Sending and Transport/Failure.
--   Crypto       what the exchange and the transport call of libsodium and of hkdf-sha, as
--                interfaces, and newnonce.
--   PairVerify   esp_hap_pair_verify.c (from line 158 on): PairVerify/Checks and PairVerify/Sound
--                are about who gets a session, PairVerify/Complete and PairVerify/Exchange about a
--                controller that keeps to the protocol.
--   PairSetup    esp_hap_pair_setup.c, esp_mfi_dummy.c: PairSetup/Start, Verify and Exchange are
--                the three messages of the controller, and Process leads through them. The theorems
--                are in PairSetup/Pairing, Reading, Storing and Attempts.
--   Database     esp_hap_database.c, esp_hap_acc.c: the numbers that outlive a restart. Database/Later
--                is about what can follow an assignment, Database/Restarts has the theorems.
--   Characteristics  esp_hap_char.c: values, constraints and updates. Characteristics/Making has
--                the functions that create and describe a characteristic, Characteristics/
--                Constraints and Characteristics/Updates the theorems.
--   Accessories  esp_hap_serv.c, esp_hap_acc.c: the tree of objects. Accessories/Numbering,
--                Joining and AddChar say what an operation changes, Ownership and the three on
--                identifiers what it keeps, Steps puts the operations together, Lookup is about
--                the searches, and Subscribed joins the objects to the bitmaps of Sessions.
--   Prelude      the names that all files share, and lemmas on lists, bytes and C strings.
--   Tests        a key store, an NVS library, a socket and a cipher in memory, an accessory with two
--                controllers, and examples.
--
-- How the parts meet: hap_pairings_process asks Sessions and Controllers who the request is from,
-- reads the request and writes the answer by Tlv, changes the table by Controllers, which saves it
-- by Keystore, and closes connections by Sessions. Sessions point into the table of controllers,
-- and Transport moves the messages of a session with the keys and nonces of its object, and closes
-- its connection when a packet cannot be read. PairVerify looks up the controller that proves
-- itself in the table of Controllers, and fills and adds the session object of Sessions.
--
-- The state is the record HapPriv, passed in and out. A pointer into the table of controllers is an
-- index, a session object is an address of the field heap, a null pointer is none, and a function
-- that returns an error code returns an Option or a pair with a Bool. Calls that leave the modelled
-- code (hap_report_event, httpd_sess_trigger_close, hap_send_event) are put on a list of effects,
-- the newest first. The allocator and the debug output are left out.
--
-- Bytes are numbers, buffers are lists of bytes; a read behind the end of a list gives 0. A
-- negative return of a TLV function is none. What an uninitialised local holds is an argument
-- (Locals), for a record of length zero is read into it and leaves it as it is. Names are read up
-- to their terminator, and one without a terminator is cut off at the end of its array, where
-- strcmp, strlen and strcpy read on. The bitmaps are of 16 bits; set_bit and reset_bit are written
-- by arithmetic, with the one bit at issue. HapPriv has the bitmaps by the address of their
-- characteristic, and the chains of these addresses, in which the walk over all objects goes.
--
-- Loops over tables are recursions on the list. The scans of a message run on fuel, which is the
-- length of the message: every round takes two bytes at least. The loop of add_tlv runs on one more
-- than the length of the value: every round but the last takes 255 bytes. The loops of Transport
-- run on the number of bytes that are left, of which every round takes one at least.
--
-- The NVS library is the parameter Nvs; its laws relate every call to the value that the flash
-- holds under a key of a namespace of a partition, and say that a namespace that cannot be opened
-- for reading holds nothing. libsodium's cipher is the parameter Cipher, whose law is that what is
-- encrypted is decrypted under the same key, nonce and data, and lwIP's blocking sockets are the
-- parameter Socket, whose laws say that bytes arrive once, in order, and at least one at a time.
-- The array of a frame grows with a packet that is longer than 1024 bytes, where the code writes
-- past its end.
--
-- The curves and hkdf are the parameter Curves: the sizes of what they give, and that both ends of
-- an exchange compute the same secret. Random bytes and fresh addresses are arguments. Encrypted
-- data that is shorter than its tag is taken as one that does not decrypt, where the code passes a
-- negative length on.
--
-- PairSetup takes mu_srp as the parameter Srp, and the random bytes that it draws as an argument.
-- The argument Setup is the setup code, or the salt and the verifier. Whether there is memory for a
-- context is an argument too; a context that the code has freed and still points to is
-- freed_setup, with which the model goes no further. The timer is left out.
--
-- A characteristic, a service and an accessory are objects at addresses, and a chain of next
-- pointers is the list of its addresses. The union hap_val_t is a record of its fields, since the
-- code reads the field that it wrote; signed numbers are their 32 bits, and C floats are the
-- parameter Floats. hap_char_update_val returns whether it calls hap_queue_event.
--
-- Not modelled: the timer of Pair Setup and the setting of its code, the rest of hap_database_init,
-- the key store's strings and encrypted partitions, the queue of notifications and the deletion of
-- objects, the HTTP services, announcement and network set-up; the C++ code of main; and the copies
-- of other projects (arduino/cores, hkdf-sha, json_parser, json_generator, mu_srp).
pub mod Prelude
pub mod Tlv
pub mod ByteConvert
pub mod Hexbin
pub mod Crypto
pub mod Keystore
pub mod Nvs
pub mod HapPriv
pub mod Controllers
pub mod Sessions
pub mod Pairings
pub mod Transport
pub mod Characteristics
pub mod Accessories
pub mod Database
pub mod PairVerify
pub mod PairSetup
pub mod Tests
