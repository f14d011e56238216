-- ===== src/FileApi/RoundTrip.antt =====
-- A write and a later read of the same file.
use dst_nucleus.FileApi.Written.{CopiesBody, Handled, refused, reached, api_file_write-Handled}
use dst_nucleus.Prelude.Decimal.{ℤ}
use dst_nucleus.Prelude.{
  ◌≡◌, refl, Option, some, Bytes, none, subst, length, arith, ◌≤◌, true, false, Bool, equal, codes,
  sym, equal_iff,
}
use dst_nucleus.Files.Stream.{delivered}
use dst_nucleus.FileApi.{
  FilePath, Store, size_cap, Io, WritePaths, success200, write_paths, Option, some, Bytes, length,
  api_file_write, read_path, Bool, ℤ, equal, codes, setup_path, api_file_read, serve, content200,
  read_target,
}
use dst_nucleus.FileApi.Query.{query_target}

-- The target of both mod files is not one that can be read.
read_path-mod : (t : Bytes) → equal t (codes "mod") ≡ true → read_path t ≡ none
unfolding read_path
read_path-mod t e = subst (λ x. read_path x ≡ none) (sym ((equal_iff t (codes "mod")).0 e)) refl

read_path-setup : (t : Bytes) → equal t (codes "setup") ≡ true → read_path t ≡ some setup_path
unfolding read_path
read_path-setup t e =
    subst (λ x. read_path x ≡ some setup_path) (sym ((equal_iff t (codes "setup")).0 e)) refl

-- A target that can be written and read is the same file for both handlers.
read_path-write_paths :
    (mods : WritePaths) (t : Bytes) (p q : FilePath) (second : Option FilePath)
    → read_path t ≡ some q
    → write_paths mods t ≡ some (some p, second)
    → p ≡ q
unfolding read_path write_paths
read_path-write_paths mods t p q second r w = ground (arith, read_path-mod t, read_path-setup t)

serve-small :
    (stat_ok : Bool) (text : Bytes)
    → length text ≤ size_cap
    → serve stat_ok (some text) ≡ content200 text
unfolding serve
serve-small stat_ok text h = ground arith

-- What a successful write stored is what a later read of the same query answers, for every target
-- that both endpoints know, when the file can be opened and the copy read what was written and lost nothing in its Sync and Close.
pub api_file_read-api_file_write :
    (mods : WritePaths) (declared : ℤ) (query : Bytes) (io : Io) (fs : Store) (stat_ok : Bool)
    (t : Bytes) (q : FilePath)
    → CopiesBody io
    → query_target query ≡ some t
    → read_path t ≡ some q
    → (api_file_write mods false true declared query io fs).1 ≡ success200
    → api_file_read false true query stat_ok (api_file_write mods false true declared query io fs).0
      ≡ content200 (delivered io.body)
unfolding api_file_read read_target
api_file_read-api_file_write mods declared query io fs stat_ok t q copies target path done =
    answer (api_file_write-Handled mods false true declared query io fs copies)
  where
    answer :
        Handled mods query io fs (api_file_write mods false true declared query io fs)
        → api_file_read false true query stat_ok
            (api_file_write mods false true declared query io fs).0
          ≡ content200 (delivered io.body)
    answer (refused same ne) = absurd (ne done)
    answer (reached t' p second target' paths wrote) =
        let same_target : t' ≡ t = cc in
        let same : p ≡ q = read_path-write_paths mods t' p q second (rw same_target path) paths in
        let (stored, small) = wrote.stored done in
        rw (target, read_target, path, ← same, stored)
          (serve-small stat_ok (delivered io.body) small)
