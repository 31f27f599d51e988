-- ===== src/Ui/Buffers.antt =====
-- `create_buffers` and `destroy_buffers` of src/ui/app.cpp.
pub mod Sizes
use finn_os.Base.{
  ℕ, suc, ◌*◌, ◌-◌, ◌%◌, ◌^◌, Bool, true, false, not, ◌||◌, [], ◌∷◌, ◌++◌, ltb, length,
  if◌then◌else◌,
}
use finn_os.Base.Int.{ℤ, pos, negsuc, ltb_ℤ, pos_part, leb_ℤ}
use finn_os.Ui.State.{Client}

-- How far one round of the loop gets: the call that fails, or the buffer is made.
pub data Allocation : Type 0 where
  no_memfd no_size no_map no_pool no_buffer made : Allocation

abbrev pub buffer_limit : ℕ
buffer_limit = 16384

-- The number that an `int` of 32 bits makes of it: it wraps.
unfoldable pub to_int32 : ℕ → ℤ
to_int32 n =
    if ltb (n % 2 ^ 32) (2 ^ 31) then pos (n % 2 ^ 32) else negsuc (2 ^ 32 - 1 - n % 2 ^ 32)

-- `static_cast<std::size_t>`, on 64 bits.
unfoldable pub to_size : ℤ → ℕ
to_size (pos n) = n % 2 ^ 64
to_size (negsuc n) = 2 ^ 64 - 1 - n % 2 ^ 64

-- The products of `int`s, which wrap in gcc's way where they do not fit.

unfoldable pub buffer_width : Client → ℤ
unfolding to_int32
buffer_width c = to_int32 (pos_part c.width * c.scale)

unfoldable pub buffer_height : Client → ℤ
unfolding to_int32
buffer_height c = to_int32 (pos_part c.height * c.scale)

unfoldable pub buffer_bytes : Client → ℕ
unfolding buffer_width buffer_height to_size
buffer_bytes c = (to_size (buffer_width c) * 4 % 2 ^ 64) * to_size (buffer_height c) % 2 ^ 64

-- Every buffer has its proxy and its map.
unfoldable pub destroy_buffers : Client → Client
destroy_buffers c = record c { buffers = []; mapped = c.mapped - length c.buffers }

-- The descriptor, the map and the pool are closed or kept as the call that fails demands.

abbrev memfd_create : Client → Client
memfd_create c = record c { open_fds = suc c.open_fds }

abbrev close_fd : Client → Client
close_fd c = record c { open_fds = c.open_fds - 1 }

abbrev mmap : Client → Client
mmap c = record c { mapped = suc c.mapped }

abbrev munmap : Client → Client
munmap c = record c { mapped = c.mapped - 1 }

abbrev add_buffer : Client → Client
add_buffer c = record c {
  buffers = c.buffers ++ (record { id = c.next_buffer; bytes = buffer_bytes c; busy = false } ∷ []);
  next_buffer = suc c.next_buffer;
}

-- One round; the flag is that the loop goes on.
unfoldable pub allocate : Allocation → Client → Client × Bool
unfolding buffer_bytes
allocate Allocation.no_memfd c = (c, false)
allocate Allocation.no_size c = (close_fd (memfd_create c), false)
allocate Allocation.no_map c = (close_fd (memfd_create c), false)
allocate Allocation.no_pool c = (close_fd (munmap (mmap (memfd_create c))), false)
allocate Allocation.no_buffer c = (munmap (close_fd (mmap (memfd_create c))), false)
allocate Allocation.made c = (add_buffer (close_fd (mmap (memfd_create c))), true)

abbrev pub then_allocate : Allocation → Client × Bool → Client × Bool
then_allocate second (c, true) = allocate second c
then_allocate second (c, false) = (c, false)

unfoldable pub create_buffers : Allocation × Allocation → Client → Client × Bool
unfolding destroy_buffers allocate buffer_width buffer_height
create_buffers (first, second) old =
    let c = destroy_buffers old in
    if leb_ℤ c.width (pos 0) || (leb_ℤ c.height (pos 0) || not c.has_shm)
    then (c, false)
    else if ltb_ℤ (pos buffer_limit) (buffer_width c) || ltb_ℤ (pos buffer_limit) (buffer_height c)
    then (c, false)
    else then_allocate second (allocate first c)
