-- ===== src/Net/Buffer/Tests.antt =====
-- The calls of src/driver/network/buffer.c on a concrete buffer, and the theorems about them there.
use horizon_operating_system.Common.{◌≡◌, refl, arith}
use horizon_operating_system.Net.Protocols.{proto_error_exceed_max_size}
use horizon_operating_system.Net.Buffer.{NetBuffer, net_buffer_put}
use horizon_operating_system.Net.Buffer.Bounds.{IsValid, header_alloc, run, run-IsValid}

-- 100 bytes at 4096, of which the data are 30, behind 54 for headers.
abbrev buffer : NetBuffer
buffer = record { ptr = 4096; size = 100; head = 4150; data_start = 4150; tail = 4180 }

buffer-IsValid : IsValid buffer
buffer-IsValid =
    ((omega arith, omega arith), ((omega arith, omega arith), (omega arith, omega arith)))

run-IsValid_example : IsValid (run (header_alloc 20) buffer)
run-IsValid_example = run-IsValid (header_alloc 20) buffer buffer-IsValid (omega arith)

put_refuses : (net_buffer_put buffer 17).1 ≡ proto_error_exceed_max_size
unfolding net_buffer_put
put_refuses = refl
