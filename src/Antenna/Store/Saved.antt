-- ===== src/Antenna/Store/Saved.antt =====
-- What `loadPersistedAntenna` reads after `savePersistedAntenna`.
use soapy_sdrplay.Prelude.{
  ℕ, ◌≡◌, refl, Bool, true, false, ◌||◌, Option, [], ◌∷◌, ◌++◌, arith, ◌==◌, if◌then◌else◌, All,
}
use soapy_sdrplay.Ipc.Bytes.{Bytes}
use soapy_sdrplay.Ipc.Numeric.{ascii, same}
use soapy_sdrplay.Antenna.Store.{
  Files, is_nil, is_blank, trim_line, get_line, get_config_dir, build_antenna_path, read_name,
  load_persisted_antenna, save_persisted_antenna, put,
}

abbrev pub ends_blank : Bytes → Bool
ends_blank [] = false
ends_blank (c ∷ []) = is_blank c
ends_blank (c ∷ d ∷ cs) = ends_blank (d ∷ cs)

trim_line-eq : (name : Bytes) → ends_blank name ≡ false → trim_line name ≡ name
unfolding trim_line
trim_line-eq [] h = refl
trim_line-eq (c ∷ []) h = rw h refl
trim_line-eq (c ∷ d ∷ cs) h = rw (trim_line-eq (d ∷ cs) h) refl

get_line-append :
    (name : Bytes) → All (λ c. (c == 10) ≡ false) name → get_line (name ++ ascii "\n") ≡ name
unfolding get_line
get_line-append [] h = refl
get_line-append (c ∷ cs) (h, hs) = rw (h, get_line-append cs hs) refl

same_self : (xs : Bytes) → same xs xs ≡ true
unfolding same
same_self [] = refl
same_self (x ∷ xs) = ground (arith, same_self xs)

-- The file that is written is read as the name.
read_name-put :
    (no_key no_name no_dir : Bool) (files : Files) (path name : Bytes)
    → no_key ≡ false
    → no_name ≡ false
    → no_dir ≡ false
    → All (λ c. (c == 10) ≡ false) name
    → ends_blank name ≡ false
    → read_name
        (no_key || no_dir)
        ((if no_key || no_name || no_dir then files else put path (name ++ ascii "\n") files) path)
      ≡ name
unfolding read_name
read_name-put no_key no_name no_dir files path name k n dir line ends =
    rw (k, n, dir, same_self path, get_line-append name line) (trim_line-eq name ends)

-- Another file is read as before.
read_name-put_other :
    (skip no_place : Bool) (files : Files) (path text other : Bytes)
    → same other path ≡ false
    → read_name no_place ((if skip then files else put path text files) other)
      ≡ read_name no_place (files other)
read_name-put_other true no_place files path text other differs = refl
read_name-put_other false no_place files path text other differs = rw differs refl

-- Where the configuration has a directory that exists or can be made, and the file opens: the name of an antenna that is
-- persisted for a key and a channel, which is one line with no blank at its end, is loaded for them, and what is loaded
-- for those whose file is another stays.
pub load-save_persisted_antenna :
    (print : ℕ → Bytes) (env : Bytes → Option Bytes) (files : Files) (key name : Bytes)
    (channel : ℕ)
    → is_nil key ≡ false
    → is_nil name ≡ false
    → is_nil (get_config_dir env) ≡ false
    → All (λ c. (c == 10) ≡ false) name
    → ends_blank name ≡ false
    → (load_persisted_antenna print env
          (save_persisted_antenna print env true true files key channel name)
          key
          channel
        ≡ name)
      × ((key' : Bytes) (channel' : ℕ)
          → same
              (build_antenna_path print (get_config_dir env) key' channel')
              (build_antenna_path print (get_config_dir env) key channel)
            ≡ false
          → load_persisted_antenna print env
              (save_persisted_antenna print env true true files key channel name)
              key'
              channel'
            ≡ load_persisted_antenna print env files key' channel')
unfolding load_persisted_antenna save_persisted_antenna
load-save_persisted_antenna print env files key name channel k n dir line ends = (
  read_name-put (is_nil key) (is_nil name) (is_nil (get_config_dir env)) files
      (build_antenna_path print (get_config_dir env) key channel) name k n dir line ends,
  (λ key' channel'.
      read_name-put_other (is_nil key || is_nil name || is_nil (get_config_dir env))
        (is_nil key' || is_nil (get_config_dir env)) files
        (build_antenna_path print (get_config_dir env) key channel) (name ++ ascii "\n")
        (build_antenna_path print (get_config_dir env) key' channel')),
)
