-- ===== src/Assembler/Elf/Segments.antt =====
-- The segments of the executables that al.cpp writes.
use ikan_osv5_student.Prelude.{
  ℕ, ◌+◌, ◌-◌, ◌≡◌, ◌∙◌, Bool, List, [], ◌++◌, some, length, replicate, take, drop, arith, refl, ap,
  ap₂, sym, take-append, drop-append, take_all, append_assoc, length-append, length-replicate,
}
use ikan_osv5_student.Assembler.Encoding.{dword}
use ikan_osv5_student.Assembler.Elf.{
  page_size, aligned, elf_header_bytes, program_header_bytes, ProgramHeader, header_segment,
  text_segment, data_segment, padded_section, header_page, write_elf,
}

-- What a loader maps for a segment: its bytes of the file.
unfoldable pub segment_bytes : ProgramHeader → List ℕ → List ℕ
segment_bytes p file = take p.p_filesz (drop p.p_offset file)

length-header_page : (e : Bool) (c d o : ℕ) → length (header_page e c d o) ≡ page_size
unfolding header_page elf_header_bytes program_header_bytes dword
length-header_page e c d o = omega (arith, length-replicate {A = ℕ} (page_size - (52 + 96)) 0)

pub length-padded_section :
    (bytes : List ℕ) → length (padded_section bytes) ≡ aligned (length bytes)
unfolding padded_section
length-padded_section bytes = omega (
  arith,
  length-append {A = ℕ} bytes (replicate (aligned (length bytes) - length bytes) 0),
  length-replicate {A = ℕ} (aligned (length bytes) - length bytes) 0,
)

slice :
    (before part after : List ℕ) (n m : ℕ)
    → length before ≡ n
    → length part ≡ m
    → take m (drop n (before ++ (part ++ after))) ≡ part
slice before part after n m h k =
    ap₂ (λ n m. take m (drop n (before ++ (part ++ after)))) (sym h) (sym k)
    ∙ (ap (take (length part)) (drop-append before (part ++ after)) ∙ take-append part after)

last_slice :
    (before part : List ℕ) (n m : ℕ)
    → length before ≡ n
    → length part ≡ m
    → take m (drop n (before ++ part)) ≡ part
last_slice before part n m h k =
    ap₂ (λ n m. take m (drop n (before ++ part))) (sym h) (sym k)
    ∙ (ap (take (length part)) (drop-append before part) ∙ take_all part)

-- A file that was written has the sections and the header where its program headers name them.
pub segment_bytes-write_elf :
    (e : Bool) (code data_bytes file : List ℕ) (o : ℕ)
    → write_elf e code data_bytes o ≡ some file
    → (segment_bytes (text_segment (length code)) file ≡ padded_section code)
      × (segment_bytes (data_segment (length code) (length data_bytes)) file
          ≡ padded_section data_bytes)
      × (segment_bytes header_segment file ≡ header_page e (length code) (length data_bytes) o)
unfolding write_elf segment_bytes
segment_bytes-write_elf e code data_bytes file o h =
    let c : ℕ = length code in
    let d : ℕ = length data_bytes in
    let header : List ℕ = header_page e c d o in
    let text : List ℕ = padded_section code in
    let rest : List ℕ = padded_section data_bytes in
    let whole : header ++ (text ++ rest) ≡ file = ground arith in
    let n1 : length header ≡ page_size = length-header_page e c d o in
    let n2 : length text ≡ aligned c = length-padded_section code in
    let n3 : length rest ≡ aligned d = length-padded_section data_bytes in
    let both : length (header ++ text) ≡ page_size + aligned c =
      omega (arith, length-append {A = ℕ} header text) in
    (
      ap (λ x. segment_bytes (text_segment c) x) (sym whole)
          ∙ slice header text rest page_size (aligned c) n1 n2,
      ap (λ x. segment_bytes (data_segment c d) x) (sym whole ∙ sym (append_assoc header text rest))
          ∙ last_slice (header ++ text) rest (page_size + aligned c) (aligned d) both n3,
      ap (λ x. segment_bytes header_segment x) (sym whole)
          ∙ slice [] header (text ++ rest) 0 page_size refl n1,
    )
