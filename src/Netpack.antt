-- ===== src/Netpack.antt =====
-- lualib-src/lua-netpack.cpp: packets with a length of two bytes, cut from the reads of a socket.
-- A byte is a number below 256, the `size` bytes at a `buffer` are a list, an fd is not negative.
-- The array `queue` is a function of the index; `hash` gives the list that starts at an index.
pub mod Dispatch
pub mod Ring
pub mod Partial
pub mod Stream
pub mod Resume
pub mod Filter
pub mod Reads
pub mod Chunks
pub mod RoundTrip
mod Tests
use starnet.Common.{
  ℕ, zero, suc, ◌+◌, ◌-◌, ◌*◌, ◌/◌, ◌%◌, ◌^◌, Bool, true, false, ◌&&◌, Option, none, some, List, [],
  ◌∷◌, ◌++◌, ltb, leb, ◌==◌, length, take, drop, if◌then◌else◌, bit_or, bit_and,
}
use starnet.Common.Int.{ℤ, pos, negsuc}

abbrev pub queuesize : ℕ
queuesize = 1024

abbrev pub hashsize : ℕ
hashsize = 4096

pub record Pack : Type 0 where
  pub id : ℕ
  pub size : ℕ
  pub buffer : List ℕ

-- `read` is -1 while the first byte of the length is all that came, in `header`.
pub record Uncomplete : Type 0 where
  pub pack : Pack
  pub read : ℤ
  pub header : ℕ

pub record Queue : Type 0 where
  pub cap : ℕ
  pub head : ℕ
  pub tail : ℕ
  pub hash : ℕ → List Uncomplete
  pub queue : ℕ → Pack

-- The sum is an `int`; its conversion to `uint32_t` is the remainder.
unfoldable pub hash_fd : ℕ → ℕ
hash_fd fd = (fd / 2 ^ 24 + fd / 2 ^ 12 + fd) % 2 ^ 32 % hashsize

-- The chain without its first element of this fd, and that element.
unfoldable pub unlink : ℕ → List Uncomplete → Option Uncomplete × List Uncomplete
unlink fd [] = (none, [])
unlink fd (uc ∷ next) =
    let rest = unlink fd next in if uc.pack.id == fd then (some uc, next) else (rest.0, uc ∷ rest.1)

unfoldable pub set_hash : Queue → ℕ → List Uncomplete → Queue
set_hash q h chain = record q { hash = λ i. if i == h then chain else q.hash i }

unfoldable pub find_uncomplete : Queue → ℕ → Option Uncomplete × Queue
unfolding set_hash
find_uncomplete q fd =
    let found = unlink fd (q.hash (hash_fd fd)) in (found.0, set_hash q (hash_fd fd) found.1)

-- The half packet with its fields filled in, at the head of the chain of its fd.
unfoldable pub save_uncomplete : Queue → ℕ → Uncomplete → Queue
unfolding set_hash
save_uncomplete q fd uc = set_hash q (hash_fd fd) (uc ∷ q.hash (hash_fd fd))

unfoldable pub read_size : ℕ → ℕ → ℕ
read_size b0 b1 = bit_or (b0 * 2 ^ 8) b1

-- `memcpy` of n entries: from `src + from` to `dst + at`.
unfoldable pub copy_entries : (ℕ → Pack) → ℕ → (ℕ → Pack) → ℕ → ℕ → ℕ → Pack
copy_entries dst at src from n i =
    if leb at i && ltb i (at + n) then src (from + (i - at)) else dst i

-- `blank` stands for the fresh array, whose entries are undefined.
unfoldable pub expand_queue : (ℕ → Pack) → Queue → ℕ → Queue
unfolding copy_entries
expand_queue blank q sz =
    if ltb q.tail q.head
    then (let n = q.cap - q.head in
        record q {
          queue = copy_entries (copy_entries blank 0 q.queue q.head n) n q.queue 0 (q.tail + 1);
          tail = n + q.tail;
          head = 0;
          cap = sz;
        })
    else record q {
      queue = copy_entries blank 0 q.queue q.head (q.tail - q.head);
      tail = q.tail - q.head;
      head = 0;
      cap = sz;
    }

-- One step around the ring: `next`, and the new tail and head.
unfoldable pub advance : ℕ → ℕ → ℕ
advance cap i = if leb cap (i + 1) then i + 1 - cap else i + 1

unfoldable pub set_tail_entry : Queue → Pack → Queue
unfolding advance
set_tail_entry q np = record q {
  queue = λ i. if i == q.tail then np else q.queue i;
  tail = advance q.cap q.tail;
}

half_header : ℕ → ℕ → Uncomplete
half_header fd b = record {
  pack = record { id = fd; size = 0; buffer = [] };
  read = negsuc 0;
  header = b;
}

pub half_pack : ℕ → ℕ → List ℕ → Uncomplete
half_pack fd size buffer = record {
  pack = record { id = fd; size = size; buffer = buffer };
  read = pos (length buffer);
  header = 0;
}

-- The capacity, an `int`, is taken to stay below 2^31.
module _ (blank : ℕ → Pack) where
  unfoldable pub push_data : Queue → ℕ → List ℕ → ℕ → Queue
  unfolding expand_queue set_tail_entry advance
  push_data q fd buffer size =
      let np : Pack = record { id = fd; size = size; buffer = buffer } in
      if advance q.cap q.tail == q.head
      then set_tail_entry (expand_queue blank q (q.cap * 2)) np
      else set_tail_entry q np

  -- Every round takes two bytes at least, so the length is fuel enough.
  unfoldable pub push_more : ℕ → Queue → ℕ → List ℕ → Queue
  unfolding push_data save_uncomplete half_header half_pack read_size
  push_more zero q fd buffer = q
  push_more (suc n) q fd [] = q
  push_more (suc n) q fd (b ∷ []) = save_uncomplete q fd (half_header fd b)
  push_more (suc n) q fd (b0 ∷ b1 ∷ bs) =
      let size = read_size b0 b1 in
      let rest = push_more n (push_data q fd (take size bs) size) fd (drop size bs) in
      if ltb (length bs) size then save_uncomplete q fd (half_pack fd size bs) else rest

-- What `filter_data` returns to Lua: nothing, or the fd and a packet.
pub data Filtered : Type 0 where
  nothing : Filtered
  data_pack : ℕ → List ℕ → Filtered
  more_pack : ℕ → List ℕ → Filtered

-- `memcpy` of bytes to `buffer + at`.
unfoldable pub write_at : List ℕ → ℕ → List ℕ → List ℕ
write_at buffer at bytes = take at buffer ++ (bytes ++ drop (at + length bytes) buffer)

-- The second byte of a length whose first came alone.
complete_header : Uncomplete → List ℕ → Uncomplete × List ℕ
complete_header uc [] = (uc, [])
complete_header uc (b ∷ bs) = elim uc.read [
  | pos r ↦ (uc, b ∷ bs)
  | negsuc r ↦ (
    record {
      pack = record { id = uc.pack.id; size = bit_or b (uc.header * 2 ^ 8); buffer = [] };
      read = pos 0;
      header = uc.header;
    },
    bs,
  )
]

read_count : ℤ → ℕ
read_count (pos r) = r
read_count (negsuc r) = 0

add_bytes : Uncomplete → List ℕ → Uncomplete
unfolding write_at read_count
add_bytes uc bytes = record {
  pack = record {
    id = uc.pack.id;
    size = uc.pack.size;
    buffer = write_at uc.pack.buffer (read_count uc.read) bytes;
  };
  read = pos (read_count uc.read + length bytes);
  header = uc.header;
}

module _ (blank : ℕ → Pack) where
  deliver : Queue → ℕ → List ℕ → List ℕ → Filtered × Queue
  unfolding push_more
  deliver q fd msg [] = (data_pack fd msg, q)
  deliver q fd msg (b ∷ bs) = (more_pack fd msg, push_more blank (suc (length bs)) q fd (b ∷ bs))

  -- With a half packet of this fd, taken out of the table.
  resume : Queue → ℕ → Uncomplete → List ℕ → Filtered × Queue
  unfolding read_count add_bytes save_uncomplete deliver write_at
  resume q fd uc bytes =
      let need = uc.pack.size - read_count uc.read in
      if ltb (length bytes) need
      then (nothing, save_uncomplete q fd (add_bytes uc bytes))
      else deliver q fd
          (take uc.pack.size (write_at uc.pack.buffer (read_count uc.read) (take need bytes)))
          (drop need bytes)

  -- Without one.
  pub begin : Queue → ℕ → List ℕ → Filtered × Queue
  unfolding save_uncomplete half_header half_pack read_size deliver
  begin q fd [] = (nothing, q)
  begin q fd (b ∷ []) = (nothing, save_uncomplete q fd (half_header fd b))
  begin q fd (b0 ∷ b1 ∷ bs) =
      let size = read_size b0 b1 in
      if ltb (length bs) size
      then (nothing, save_uncomplete q fd (half_pack fd size bs))
      else deliver q fd (take size bs) (drop size bs)

  pub with_found : Option Uncomplete × Queue → ℕ → List ℕ → Filtered × Queue
  unfolding begin resume complete_header
  with_found (none, q) fd bytes = begin q fd bytes
  with_found (some uc, q) fd bytes = let c = complete_header uc bytes in resume q fd c.0 c.1

  unfoldable pub filter_data : Queue → ℕ → List ℕ → Filtered × Queue
  unfolding with_found find_uncomplete
  filter_data q fd [] = (nothing, q)
  filter_data q fd (b ∷ bs) = with_found (find_uncomplete q fd) fd (b ∷ bs)

unfoldable pub lcreate : (ℕ → Pack) → Queue
lcreate blank = record { cap = queuesize; head = 0; tail = 0; hash = λ h. []; queue = blank }

-- An fd and a packet, the oldest of those left by `filter_data`.
unfoldable pub lpop : Queue → Option (ℕ × List ℕ) × Queue
unfolding advance
lpop q =
    let np = q.queue q.head in
    if q.head == q.tail then (none, q) else (
      some (np.id, take np.size np.buffer),
      record q { head = if leb q.cap (q.head + 1) then 0 else q.head + 1 },
    )

unfoldable pub lclose : Queue → ℕ → Queue
unfolding find_uncomplete
lclose q fd = (find_uncomplete q fd).1

-- What it frees is not modelled.
unfoldable pub lclear : Queue → Queue
lclear q = record q { hash = λ h. []; head = 0; tail = 0 }

-- `none` is the error for a packet that is too long.
unfoldable pub lpack : List ℕ → Option (List ℕ)
lpack msg =
    let len = length msg in
    if leb 0x10000 len then none else some (len / 2 ^ 8 % 2 ^ 8 ∷ bit_and len 0xff ∷ msg)
