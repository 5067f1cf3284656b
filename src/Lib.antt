-- ===== src/Lib.antt =====
-- The GUD USB display driver, backported to Linux 4.9, the codecs of its benchmark and the touch
-- bridge of its gadget.
--
-- The driver (backport-4.9) shows framebuffers on a display behind USB. A probe reads the display's
-- descriptor and allocates buffers; an atomic check validates a framebuffer and asks the display; an
-- update commits the mode and either transfers the frame at once or copies it to a shadow buffer,
-- which a worker transfers. A transfer sends rectangles of whole rows, each a SET_BUFFER control
-- request and one bulk payload, raw or compressed with LZ4, with bounded retries of both. A monitor
-- watches the root port after a disconnect and tells user space when the device is back. On the other
-- side of the cable the touch bridge turns the events of a touch screen into HID reports.
--
-- Base holds the shared lists, tests and bit lemmas; Kernel the error numbers.
--   Layout       backport-4.9/gud_frame_layout.h: gud_format_frame_layout,
--                gud_validate_framebuffer_range.
--   Wire         backport-4.9/gud_protocol.h: the packed records, as lists of bytes.
--   Usb          gud_usb_set, gud_usb_bulk_write and the retry loops of backport-4.9/gud_pipe.c, with
--                gud_transfer_retry.h. The USB core with the display behind it is a parameter, three
--                functions of a state; a Host is the device record, that state and the log of
--                transactions.
--   Display      what a display makes of the transactions: an independent description, which no
--                driver code computes. Its pixels are the bytes of the frame.
--   Pipe         gud_pipe_transfer_xdisp_buffer and its probe, of backport-4.9/gud_pipe.c: one round
--                is plan_rectangle and send_planned, the loop is transfer_loop.
--   Flush        gud_fb_queue_damage, gud_flush_work, gud_async_cancel, gud_async_stop,
--                gud_pipe_prepare_update and gud_pipe_update of the same file. A section under
--                damage_lock is a step, and so is a run of the worker; Flush.Overlap takes the
--                run apart into rectangles, with queueings in between.
--   Check        gud_pipe_check, gud_pipe_state_check, gud_pipe_disable of the same file.
--   Framebuffer  gud_fb_create of the same file, the geometry of backport-4.9/gud_gem_4_9.c.
--   Device       gud_get_display_descriptor of backport-4.9/gud_drv.c, gud_xdisp_buffers_init.
--   Connector    gud_connector_get_modes of backport-4.9/gud_connector.c.
--   Reconnect    backport-4.9/gud_reconnect.c: each critical section is a step.
--   Plain        the #else branches of gud_pipe_transfer and gud_pipe_update of
--                backport-4.9/gud_pipe.c: uncompressed rows through a bounce buffer.
--   Life         backport-4.9/gud_drv.c, with gud_pipe_init: Probe and End take and give back what a
--                ledger notes; Calls is what DRM, the workqueue and the PM core call in any order, over
--                the operations of Check, Flush and Usb; Cycles plugs the device in and out, over and
--                over, with the monitor of Reconnect beside it.
--   Gem          backport-4.9/gud_gem_4_9.c: pages, mappings and faults of one object.
--   ProbePayload gud_xdisp_build_probe_payload of backport-4.9/gud_pipe.c, with an independent
--                description of the LZ4 block format.
--   Touch        buildroot/external/package/hidg-touch: Touch is the state and the event loop of
--                hidg-touch.c, Program its options and main, Descriptor usb_desc.c; Hid is an
--                independent description of how a host reads a report descriptor.
--   Checksum     gud_row_crc32 of backport-4.9/gud_pipe.c.
--   Codec        benchmark/tools/fbcodec-bench/src: Pixel is common.h, Lz4 lz4_util.c, and Rle, Quant,
--                Predict, Temporal and Policy are rle.c, quant.c, predict.c, temporal.c and
--                temporal_policy.c of transforms. Policy.Stream and Temporal.Play put an encoder and a
--                decoder together, the first over a transport that loses, repeats, reorders and
--                garbles packets.
--   Tests        runs at concrete inputs.
--
-- Numbers are natural numbers; a C type that can wrap has its modulus written out, with a size_t
-- of 64 bits. The loop of a transfer runs on fuel, one more than the length of the frame, of
-- which each round takes at least a byte; the codecs run on as many rounds as there are bytes,
-- and the search of the probe payload on the bound of its loop. The retry loops count the
-- retries that are left.
--
-- Parameters: the USB core; the LZ4 block compressor with the law that a block unpacks to its
-- source and, for the benchmark, that LZ4_compressBound bytes are enough for it, for sizes
-- that an int counts; what vmap, the allocators, DRM, libevdev and the files return. Not
-- modelled: log lines and timing; a queueing in the middle of the read of one rectangle; the
-- wait for the delayed work that follows a cancel outside the monitor's lock; the benchmark's
-- command line and the search of its registry by name; vendored codecs.
pub mod Base
pub mod Kernel
pub mod Layout
pub mod Wire
pub mod Usb
pub mod Display
pub mod Pipe
pub mod Flush
pub mod Plain
pub mod Life
pub mod Gem
pub mod ProbePayload
pub mod Connector
pub mod Check
pub mod Device
pub mod Framebuffer
pub mod Reconnect
pub mod Codec
pub mod Checksum
pub mod Touch
pub mod Tests
