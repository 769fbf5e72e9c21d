-- ===== src/Access.antt =====
-- access.hpp: the access modes and targets.
use neo_sycl.Prelude.{Bool, true, false}

pub data Mode : Type 0 where
  read write read_write discard_write discard_read_write atomic : Mode

pub data Target : Type 0 where
  global_buffer constant_buffer local image host_buffer host_image image_array : Target

-- `mode == access::mode::read`.
abbrev pub is_read : Mode → Bool
is_read Mode.read = true
is_read _ = false

-- `m == discard_write || m == discard_read_write`.
abbrev pub is_discard : Mode → Bool
is_discard Mode.discard_write = true
is_discard Mode.discard_read_write = true
is_discard _ = false
