-- ===== src/Lib.antt =====
-- pico-framework: components for RP2040 and RP2350 firmware, and the path of a firmware update
-- over a serial link. A line of Intel HEX goes through components/hex_parser, whose records
-- components/firmware_update gathers into pages for a writer; components/flash_storage divides the
-- chip and bounds every erase and program; a header with two checksums of components/crc records
-- what was received, and an image that was verified is copied over the application.
-- components/ring_buffer decouples an interrupt handler from the main loop.
--
-- Base: the shared types, tests, lists as C arrays, 32-bit arithmetic and laws of bit operations.
-- RingBuffer: components/ring_buffer/ring_buffer.c. `Ring` is ring_buffer_t, and each function
--   has the name of the C function without its prefix. RingBuffer.Interleave cuts
--   ring_buffer_push and ring_buffer_pop into their accesses to the shared structure.
-- Crc: components/crc/crc.c, both checksums, bit by bit as in the source.
-- HexParser: components/hex_parser/hex_parser.c. hex_parser_feed is `feed`, cut into the stages
--   feed_record, feed_body, check_frame and accept.
-- CanFrame: components/can_frame/can_frame.c and its header; the queue keeps records of 16 bytes in
--   a RingBuffer.
-- ConfigStore: components/persistent_config/config_store.c and its header, the records that
--   persistent settings are kept in. config_set, config_get and config_remove search the record
--   and go on as set_at, get_at and remove_at; the typed and the enumerating functions are in
--   ConfigStore.Values.
-- ServoProtocol: components/servo_bus/servo_protocol.c and its header, the packets of a servo bus.
--   servo_protocol_build is `build`, its writes write_packet; servo_protocol_parse_status is
--   parse_status, from the length byte on parse_body.
-- FlashLayout: components/flash_storage/flash_layout.c and its header.
-- FlashStorage: components/flash_storage/flash_storage.c; the functions have the names of the C
--   functions without their prefix, or with `storage_` for it. The SDK's flash functions are a
--   parameter, FlashStorage.Hardware states what their documentation says, and FlashStorage.Model
--   is a chip for which it holds.
-- PersistentConfig: components/persistent_config/persistent_config.c, the two slots in flash that a
--   ConfigStore is saved to. persistent_config_save is `save`, cut into save_store, save_to and the
--   loop save_pages; persistent_config_erase is erase_all.
-- FirmwareImage: components/firmware_update/firmware_image.c.
-- FirmwareReceive: components/firmware_update/firmware_receive.c. firmware_receive_line is
--   `receive_line`, cut into take_line, apply_record and place_all, and place_byte into place_at
--   and put_byte. The page writer is a parameter.
-- FirmwareApply: components/firmware_update/firmware_apply.c, the copy of a staged image.
-- FirmwareService: components/firmware_update/firmware_service.c, which ties these together: the
--   state of the chip is kept where the writer acts on it, each command has the name of its C
--   function, and cmd_begin goes on as `start` once the size to erase is known.
--
-- Numbers are natural numbers with the wrap of uint32_t written out; size_t has 32 bits, as on the
-- target. A C array is a list, a text the list of its bytes before the NUL, a struct a record, and
-- a function that changes a struct returns the new one. Loops that are not over a list
-- take fuel: in `advance` one more than the index, of which each round takes away at least one; in
-- the loops of ConfigStore the used bytes, since each record has two bytes or more; in save_pages
-- the used bytes, of which each round writes one or more.
--
-- Not modelled: tests of an object's handle for NULL (a handle is a value here), the tables of
-- result names, code that drives hardware or calls the Pico SDK, lwIP or BTstack, and the
-- components that PROJECT.json lists as not modelled.
pub mod Base
pub mod RingBuffer
pub mod Crc
pub mod HexParser
pub mod CanFrame
pub mod ConfigStore
pub mod ServoProtocol
pub mod FlashLayout
pub mod FlashStorage
pub mod PersistentConfig
pub mod FirmwareImage
pub mod FirmwareReceive
pub mod FirmwareApply
pub mod FirmwareService
