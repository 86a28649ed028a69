-- ===== src/Bodies/FileBody.antt =====
-- `file_body` of include/httplib/body/file_body.hpp and lib/body/file_body.cpp: the bytes of a file
-- as the body of an answer, whole or in ranges. The ends of a range are the 64 bits of an `int64_t`;
-- `pos_` is a `uint64_t`, so a difference with it wraps round modulo 2^64.
pub mod Reads
pub mod Ranges
pub mod Parts
pub mod Pieces
pub mod Truncated
use httplib.Base.{
  ℕ, zero, suc, ◌+◌, ◌-◌, ◌^◌, ◌%◌, Bool, true, false, not, Option, none, some, List, [], ◌∷◌, ◌++◌,
  ltb, leb, ◌==◌, if◌then◌else◌, Text, codes, length, get_elem?, take, drop,
}

abbrev pub word : ℕ
word = 2 ^ 64

-- What is relied on of an open `std::fstream`: the bytes of the file, the position of the next read
-- and the failure bit, which a read that meets the end sets.
pub record File : Type 0 where
  pub contents : Text
  pub position : ℕ
  pub failed : Bool

-- `seekg(off)` with the default of the header, `std::ios::cur`; on a failed stream it has no effect.
unfoldable pub seekg : ℕ → File → File
seekg off file =
    if file.failed
    then file
    else record { contents = file.contents; position = file.position + off; failed = false }

-- `read(buffer, n)`: the bytes read, `gcount()` many.
unfoldable pub read : ℕ → File → File × Text
read n file =
    let bytes = take n (drop file.position file.contents) in
    if file.failed then (file, []) else (
      record {
        contents = file.contents;
        position = file.position + length bytes;
        failed = ltb (length bytes) n;
      },
      bytes,
    )

pub record FileBody : Type 0 where
  pub ranges : List (ℕ × ℕ)
  pub content_type : Text
  pub boundary : Text
  pub file : File
  pub file_size : ℕ

pub data Step : Type 0 where
  header content content_end eof : Step

-- `file_size` is the writer's own member `file_size_`, which nothing sets.
pub record Writer : Type 0 where
  pub body : FileBody
  pub range_index : Option ℕ
  pub pos : Option ℕ
  pub step : Step
  pub file_size : ℕ

-- What `get` returns: no buffer, no buffer with the error `short_read`, or bytes and whether there
-- are more.
pub data Got : Type 0 where
  ended short_read : Got
  chunk : Text → Bool → Got

abbrev pub with_file : FileBody → File → FileBody
with_file b file = record {
  ranges = b.ranges;
  content_type = b.content_type;
  boundary = b.boundary;
  file = file;
  file_size = b.file_size;
}

-- The file and the position at a read: the first one of a range seeks.
unfoldable pub begun : Option ℕ → ℕ → File → File × ℕ
unfolding seekg
begun (some pos) first file = (file, pos)
begun none first file = (seekg first file, first)

-- The number of bytes to read: up to the end, as much as the buffer holds.
unfoldable pub next_size : ℕ → ℕ → ℕ → ℕ
next_size buffer second pos =
    let left = (second + word - pos) % word in if ltb left buffer then left else buffer

-- Decimals of the ends of a range, and of a size, and the size of the buffer.
module _ (decimal : ℕ → Text) (buffer : ℕ) where
  unfoldable range_header : Writer → ℕ × ℕ → Text
  range_header w (first, second) =
      (codes "--" ++ (w.body.boundary ++ codes "\r\n"))
      ++ ((codes "Content-Type: " ++ (w.body.content_type ++ codes "\r\n"))
          ++ ((codes "Content-Range: bytes "
                ++ (decimal first
                    ++ (codes "-"
                        ++ (decimal second
                            ++ (codes "/" ++ (decimal w.file_size ++ codes "\r\n"))))))
              ++ codes "\r\n"))

  -- The branch for one range, or for the whole file.
  unfoldable pub get_single : Writer → ℕ → ℕ → Writer × Got
  unfolding begun next_size read
  get_single w first second =
      let (file, pos) = begun w.pos first w.body.file in
      let n = next_size buffer second pos in
      let (after, bytes) = read n file in
      let at : File → ℕ → Writer = λ f p. record {
        body = with_file w.body f;
        range_index = w.range_index;
        pos = some p;
        step = w.step;
        file_size = w.file_size;
      } in
      if n == 0
      then (at file pos, ended)
      else if length bytes == 0
      then (at after pos, short_read)
      else (at after (pos + length bytes), chunk bytes (ltb (pos + length bytes) second))

  unfoldable get_end : Writer → ℕ → Writer × Got
  get_end w index =
      if index == length w.body.ranges - 1
      then (
        record {
          body = w.body;
          range_index = w.range_index;
          pos = w.pos;
          step = eof;
          file_size = w.file_size;
        },
        chunk (codes "\r\n" ++ (codes "--" ++ (w.body.boundary ++ codes "--\r\n"))) false,
      )
      else (
        record {
          body = w.body;
          range_index = some (index + 1);
          pos = w.pos;
          step = header;
          file_size = w.file_size;
        },
        chunk (codes "\r\n") true,
      )

  unfoldable pub get_content : Writer → ℕ → ℕ × ℕ → Writer × Got
  unfolding begun next_size read get_end
  get_content w index (first, second) =
      let (file, pos) = begun w.pos first w.body.file in
      let n = next_size buffer second pos in
      let (after, bytes) = read n file in
      let at : File → ℕ → Step → Writer = λ f p step. record {
        body = with_file w.body f;
        range_index = w.range_index;
        pos = some p;
        step = step;
        file_size = w.file_size;
      } in
      if n == 0
      then get_end (at file pos content_end) index
      else if length bytes == 0
      then (at after pos content, short_read)
      else (at after (pos + length bytes) content, chunk bytes true)

  unfoldable get_part : Writer → ℕ → ℕ × ℕ → Step → Writer × Got
  unfolding range_header get_content get_end
  get_part w index range header = (
    record {
      body = w.body;
      range_index = w.range_index;
      pos = none;
      step = content;
      file_size = w.file_size;
    },
    chunk (range_header w range) true,
  )
  get_part w index range content = get_content w index range
  get_part w index range content_end = get_end w index
  get_part w index range eof = (w, ended)

  -- The first call with more than one range starts at the first of them.
  unfoldable indexed : Writer → Option ℕ → Writer × ℕ
  indexed w (some index) = (w, index)
  indexed w none = (
    record {
      body = w.body;
      range_index = some 0;
      pos = w.pos;
      step = header;
      file_size = w.file_size;
    },
    0,
  )

  unfoldable pub get_multi : Writer → Writer × Got
  unfolding indexed get_part
  get_multi v =
      let (w, index) = indexed v v.range_index in
      elim (get_elem? w.body.ranges index) [
        | none ↦ (w, ended)
        | some range ↦ get_part w index range w.step
      ]

  unfoldable pub get_by : List (ℕ × ℕ) → Writer → Writer × Got
  unfolding get_single get_multi
  get_by [] w = get_single w 0 w.body.file_size
  get_by ((first, second) ∷ []) w = get_single w first (second + 1)
  get_by (r ∷ q ∷ ranges) w = get_multi w

  unfoldable pub get : Writer → Writer × Got
  unfolding get_by
  get w = get_by w.body.ranges w
