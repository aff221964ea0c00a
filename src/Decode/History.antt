-- ===== src/Decode/History.antt =====
-- src/decode/history.rs: the window of decoded bytes. A slice `&xs[a..b]` is a part of a list, and the
-- caller's `output` is a list that comes back with its new content.
pub mod Ring
pub mod Refine
pub mod Slice
pub mod Repeat
pub mod Copy
pub mod Room
use brutli.Prelude.{
  ℕ, zero, suc, ◌+◌, ◌-◌, ◌^◌, min, bit_and, Bool, ◌||◌, List, [], ◌∷◌, ◌++◌, if◌then◌else◌, ◌==◌,
  ltb, length, get_or, set, take, drop, Result, ok, err,
}

pub data HistoryError : Type 0 where
  invalid_distance : HistoryError

pub record History : Type 0 where
  pub buffer : List ℕ
  pub ring_size : ℕ
  pub ring_mask : ℕ
  pub window_size : ℕ
  pub write : ℕ
  pub available : ℕ
  pub previous : ℕ
  pub second_previous : ℕ

abbrev pub new : ℕ → History
new window_bits = record {
  buffer = [];
  ring_size = 2 ^ window_bits;
  ring_mask = 2 ^ window_bits - 1;
  window_size = 2 ^ window_bits - 16;
  write = 0;
  available = 0;
  previous = 0;
  second_previous = 0;
}

abbrev pub previous_bytes : History → ℕ × ℕ
previous_bytes h = (h.previous, h.second_previous)

abbrev pub max_backward_distance : History → ℕ
max_backward_distance h = min h.available h.window_size

-- `xs[start..start + ys.len()].copy_from_slice(ys)`
unfoldable pub overwrite : List ℕ → ℕ → List ℕ → List ℕ
overwrite xs start ys = take start xs ++ (ys ++ drop (start + length ys) xs)

abbrev pub store : History → ℕ → History
store h byte =
    if ltb (length h.buffer) h.ring_size
    then record h {
      buffer = h.buffer ++ (byte ∷ []);
      write = bit_and (length (h.buffer ++ (byte ∷ []))) h.ring_mask;
    }
    else record h { buffer = set h.buffer h.write byte; write = bit_and (h.write + 1) h.ring_mask }

abbrev pub count_and_remember : History → ℕ → History
count_and_remember h byte = record h {
  available = min (h.available + 1) h.window_size;
  second_previous = h.previous;
  previous = byte;
}

unfoldable pub push : History → ℕ → History
push h byte = count_and_remember (store h byte) byte

abbrev pub update_previous : History → List ℕ → History
update_previous h bytes =
    if length bytes == 1
    then record h { second_previous = h.previous; previous = get_or bytes 0 0 }
    else record h {
      second_previous = get_or bytes (length bytes - 2) 0;
      previous = get_or bytes (length bytes - 1) 0;
    }

-- The `while` of `push_slice`; each round takes a byte at least, so `remaining.len()` rounds do.
unfoldable pub write_around : ℕ → History → List ℕ → History
write_around zero h remaining = h
write_around (suc fuel) h [] = h
write_around (suc fuel) h (byte ∷ bytes) =
    let contiguous = min (length (byte ∷ bytes)) (h.ring_size - h.write) in
    write_around fuel
      (record h {
        buffer = overwrite h.buffer h.write (take contiguous (byte ∷ bytes));
        write = bit_and (h.write + contiguous) h.ring_mask;
      })
      (drop contiguous (byte ∷ bytes))

abbrev pub grow : History → List ℕ → History × List ℕ
grow h bytes =
    if ltb (length h.buffer) h.ring_size
    then (let n = min (length bytes) (h.ring_size - length h.buffer) in
        (
          record h {
            buffer = h.buffer ++ take n bytes;
            write = bit_and (length (h.buffer ++ take n bytes)) h.ring_mask;
          },
          drop n bytes,
        ))
    else (h, bytes)

abbrev pub count_slice : History → List ℕ → History
count_slice h bytes = record (update_previous h bytes) {
  available = min (h.available + length bytes) h.window_size;
}

unfoldable pub push_slice : History → List ℕ → History
push_slice h [] = h
push_slice h (byte ∷ bytes) =
    let (grown, remaining) = grow (count_slice h (byte ∷ bytes)) (byte ∷ bytes) in
    write_around (length remaining) grown remaining

-- The `n` bytes that `output` receives.
unfoldable pub copy_history_prefix : History → ℕ → ℕ → List ℕ
copy_history_prefix h distance n =
    if ltb (length h.buffer) h.ring_size
    then take n (drop (length h.buffer - distance) h.buffer)
    else (let start = bit_and (h.write + h.ring_size - distance) h.ring_mask in
        let first = min n (h.ring_size - start) in
        take first (drop start h.buffer) ++ take (n - first) h.buffer)

-- The `while` of `copy_into`; each round fills a byte at least, so `produced` rounds do.
unfoldable pub repeat_filled : ℕ → ℕ → ℕ → List ℕ → List ℕ
repeat_filled zero produced filled output = output
repeat_filled (suc fuel) produced filled output =
    let chunk = min (produced - filled) filled in
    let more =
      repeat_filled fuel produced (filled + chunk) (overwrite output filled (take chunk output)) in
    if ltb filled produced then more else output

abbrev pub copied : History → ℕ → ℕ → List ℕ → List ℕ
copied h distance produced output =
    let seed_len = min produced distance in
    repeat_filled produced produced seed_len
      (overwrite output 0 (copy_history_prefix h distance seed_len))

abbrev pub copy_within_reach : History → ℕ → ℕ → List ℕ → ℕ × List ℕ × History
copy_within_reach h distance produced output =
    if produced == 0
    then (0, output, h)
    else (let filled = copied h distance produced output in
        (produced, filled, push_slice h (take produced filled)))

-- The number of bytes, the output with them at its front, and the history after them.
unfoldable pub copy_into : History → ℕ → ℕ → List ℕ → Result HistoryError (ℕ × List ℕ × History)
copy_into h distance count output =
    if (distance == 0) || ltb (max_backward_distance h) distance
    then err HistoryError.invalid_distance
    else ok (copy_within_reach h distance (min count (length output)) output)
