-- ===== src/Sigan/Journal/Writer.antt =====
-- The writing side of class `Journal`: a buffer of fixed size in front of a stream. The standard
-- library's stream is a parameter, `Disk`: how many bytes the n-th write takes, whether the n-th
-- flush succeeds, and how much of the file can be read again behind it.
use mari_paint.Prelude.{
  ℕ, ◌+◌, ◌-◌, ◌%◌, ◌^◌, ◌≤◌, Bool, true, false, not, List, [], ◌++◌, ltb, ◌==◌, if◌then◌else◌,
  length, take, Option, none, some,
}
use mari_paint.Core.Errors.{Result, ok, err, io_error}
use mari_paint.Sigan.Wire.{put_u32, put_u64}
use mari_paint.Sigan.Frame.{StrokeFrame}
use mari_paint.Sigan.Journal.Records.{
  frame, stroke_end, note, tag, payload, record_overhead, record_bytes,
}
use mari_paint.Sigan.Journal.Scan.{journal_magic, journal_header_size}

pub record Disk : Type 0 where
  pub written : ℕ → ℕ → ℕ
  pub flushed : ℕ → Bool
  -- `fwrite` returns at most the count that it was asked for
  pub written-le : (call want : ℕ) → written call want ≤ want
  -- whether the file opens again behind so many flushes, and how many of its bytes are read
  pub reread : ℕ → ℕ → Option ℕ

-- `buf` is the used part of the buffer, `file` what the stream has taken, `calls` counts the calls
-- of `flush`.
pub record Journal : Type 0 where
  pub is_open : Bool
  pub buf : List ℕ
  pub file : List ℕ
  pub frame_count : ℕ
  pub failed : Bool
  pub calls : ℕ

-- `kBufCapacity`
abbrev pub buf_capacity : ℕ
buf_capacity = 65536

unfoldable pub journal_header : ℕ → ℕ → List ℕ
unfolding put_u32 put_u64
journal_header session_id wall_anchor =
    journal_magic
    ++ (put_u32 1 ++ (put_u32 journal_header_size ++ (put_u64 session_id ++ put_u64 wall_anchor)))

-- `Journal::create`: whether the file opens, and how much of the header the stream takes.
unfoldable pub create : Bool → ℕ → ℕ → ℕ → Result Journal
unfolding journal_header
create opens taken session_id wall_anchor =
    if not opens
    then err io_error
    else if not (taken == journal_header_size)
    then err io_error
    else ok (record {
      is_open = true;
      buf = [];
      file = journal_header session_id wall_anchor;
      frame_count = 0;
      failed = false;
      calls = 0;
    })

module _ (disk : Disk) where
  -- The end of `flush`, once the buffer has been handed over.
  unfoldable pub flush_stream : Journal → Journal × Bool
  flush_stream j =
      let j' = record j { calls = j.calls + 1 } in
      if disk.flushed j.calls then (j', true) else (record j' { failed = true }, false)

  unfoldable pub flush : Journal → Journal × Bool
  unfolding flush_stream
  flush j =
      if not j.is_open
      then (j, false)
      else if length j.buf == 0
      then flush_stream j
      else let want = length j.buf in
        let taken = disk.written j.calls want in
        let j' = record j { buf = []; file = j.file ++ take taken j.buf } in
        if not (taken == want)
        then (record j' { failed = true; calls = j.calls + 1 }, false)
        else flush_stream j'

  unfoldable pub push : List ℕ → Journal → Journal
  push bytes j = record j { buf = j.buf ++ bytes }

  unfoldable pub write_record : ℕ → List ℕ → Journal → Journal × Bool
  unfolding push
  write_record t bytes j =
      let need = record_overhead + length bytes in
      if not j.is_open
      then (record j { failed = true }, false)
      else if ltb buf_capacity need
      then (record j { failed = true }, false)
      else if ltb buf_capacity (length j.buf + need)
      then (let (j', done) = flush j in
          if done then (push (record_bytes t bytes) j', true) else (j', false))
      else (push (record_bytes t bytes) j, true)

  unfoldable pub append_frame : StrokeFrame → Journal → Journal × Bool
  unfolding write_record
  append_frame f j =
      let (j', done) = write_record (tag (frame f)) (payload (frame f)) j in
      if done
      then (record j' { frame_count = (j'.frame_count + 1) % 2 ^ 64 }, true)
      else (j', false)

  unfoldable pub mark_stroke_end : ℕ → Journal → Journal × Bool
  unfolding write_record
  mark_stroke_end seq j =
      let (j', done) = write_record (tag (stroke_end seq)) (payload (stroke_end seq)) j in
      if done then flush j' else (j', false)

  -- A note that no buffer could hold is shortened.
  unfoldable pub append_note : List ℕ → Journal → Journal × Bool
  unfolding write_record
  append_note text j =
      let max_len = buf_capacity - record_overhead in
      let n = if ltb (length text) max_len then length text else max_len in
      write_record (tag (note (take n text))) (payload (note (take n text))) j

-- `fopen` and the loop of `fread` in `Journal::scan`: an error of a read is taken as the end.
unfoldable pub read_part : Option ℕ → List ℕ → Option (List ℕ)
read_part none file = none
read_part (some n) file = some (take n file)

unfoldable pub reopened : Disk → Journal → Option (List ℕ)
unfolding read_part
reopened disk j = read_part (disk.reread j.calls (length j.file)) j.file
