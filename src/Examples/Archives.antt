-- ===== src/Examples/Archives.antt =====
-- Archives.
use mari_paint.Prelude.{ℕ, ◌≡◌, refl, List, [], ◌∷◌, ◌++◌, arith, length, replicate}
use mari_paint.Core.Errors.{ok, err, parse_error}
use mari_paint.Sigan.Wire.{same_bytes}
use mari_paint.Io.Tar.{
  TarEntry, octal_loop, parse_octal, header_checksum, is_zero_block, field_string, has_ustar,
  entry_name, check_entry, read_entry, add_entry, read_loop, read_tar,
}
use mari_paint.Io.Reader.{
  ByteReader, open_reader, has_bytes, bytes, unsigned, key_string, seek, utf8, is_high, paired,
  units, unicode_string,
}
use mari_paint.Io.Reader.Sticky.{
  Keeps, ReaderCall, unsigned_call, key_call, seek_call, run_call, run_reads, run_reads-Keeps,
}
use mari_paint.Io.Tar.Bounds.{Archive, read_tar-Archive}

-- A file named "a" with three bytes, and the mark of the end.
abbrev header : List ℕ
header =
    97
    ∷ (replicate 123 0
        ++ (replicate 10 48
            ++ (51
                ∷ 0
                ∷ (replicate 12 0
                    ++ (48 ∷ 48 ∷ 49 ∷ 54 ∷ 52 ∷ 52 ∷ 0 ∷ 32 ∷ 48 ∷ replicate 355 0)))))

abbrev archive : List ℕ
archive = header ++ (1 ∷ 2 ∷ 3 ∷ (replicate 509 0 ++ replicate 512 0))

abbrev entries : List TarEntry
entries = record { name = 97 ∷ []; type_flag = 48; offset = 512; size = 3 } ∷ []

archive_read : read_tar archive ≡ ok entries
unfolding read_tar read_loop is_zero_block read_entry parse_octal octal_loop header_checksum
    check_entry entry_name field_string has_ustar same_bytes add_entry
archive_read = refl

-- The same archive without the last byte of the padding.
archive_cut : read_tar (header ++ (1 ∷ 2 ∷ 3 ∷ replicate 508 0)) ≡ err parse_error
unfolding read_tar read_loop is_zero_block read_entry parse_octal octal_loop header_checksum
    check_entry entry_name field_string has_ustar same_bytes add_entry
archive_cut = refl

read_tar-Archive_example : Archive (length archive) entries
read_tar-Archive_example = read_tar-Archive archive entries (omega arith) archive_read

-- A length that is a lie fails, and then nothing is read.
abbrev calls : List ReaderCall
calls = unsigned_call 2 ∷ key_call ∷ unsigned_call 1 ∷ seek_call 0 ∷ []

abbrev after_calls : ByteReader
after_calls = run_reads calls (open_reader (1 ∷ 2 ∷ 0 ∷ 0 ∷ 0 ∷ 9 ∷ 97 ∷ []))

lie_found : after_calls.pos ≡ 6
unfolding run_call unsigned bytes has_bytes key_string seek
lie_found = refl

-- The letter é, the sign 😀 as a pair, and the zero at the end.
unicode_read :
    (unicode_string 9
      (open_reader (0 ∷ 0 ∷ 0 ∷ 4 ∷ 0 ∷ 0xE9 ∷ 0xD8 ∷ 0x3D ∷ 0xDE ∷ 0 ∷ 0 ∷ 0 ∷ []))).0
    ≡ 0xC3 ∷ 0xA9 ∷ 0xF0 ∷ 0x9F ∷ 0x98 ∷ 0x80 ∷ []
unfolding unicode_string unsigned bytes has_bytes units is_high paired utf8
unicode_read = refl

run_reads-Keeps_example : Keeps (open_reader (1 ∷ 2 ∷ 0 ∷ 0 ∷ 0 ∷ 9 ∷ 97 ∷ [])) after_calls
run_reads-Keeps_example = run_reads-Keeps calls (open_reader (1 ∷ 2 ∷ 0 ∷ 0 ∷ 0 ∷ 9 ∷ 97 ∷ []))

-- Half of a pair on its own is encoded as it stands.
half_read :
    (unicode_string 9 (open_reader (0 ∷ 0 ∷ 0 ∷ 1 ∷ 0xDC ∷ 0 ∷ []))).0 ≡ 0xED ∷ 0xB0 ∷ 0x80 ∷ []
unfolding unicode_string unsigned bytes has_bytes units is_high paired utf8
half_read = refl
