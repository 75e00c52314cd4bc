-- ===== src/Build/Tests.antt =====
-- A site of one page and a script through the build, and the names of some files.
use single_binary_static_web.Prelude.{
  length, ℕ, ◌≤◌, ◌≡◌, refl, true, false, List, [], ◌∷◌, Option, none, some, any, total, min, Text,
  codes, text_eq, ends_with, contains, split_on,
}
use single_binary_static_web.Asset.{Header}
use single_binary_static_web.Build.Files.{url_paths_for_file}
use single_binary_static_web.Build.Csp.{
  build_csp, CspValues, self_source, resolve_origin, hash_source, build_csp_values,
  build_csp_for_source,
}
use single_binary_static_web.Build.Csp.Policy.{
  read_policy, AreValues, used, build_csp_for_source-read_policy,
}
use single_binary_static_web.Build.Csp.Sources.{resolve_origin_self, build_csp_values-script_src}
use single_binary_static_web.Build.Metadata.{
  build_version_headers, build_not_found_headers, build_non_csp_headers, Inputs, Metadata,
  no_metadata, add_asset, step, build_asset_metadata,
}
use single_binary_static_web.Build.Dedup.{HeaderSets, header_set_key, intern}
use single_binary_static_web.Build.Dedup.Keys.{HasKey, IsIndexed, intern-HasKey}
use single_binary_static_web.Build.Metadata.Sizes.{Recorded, build_asset_metadata-Recorded}
use single_binary_static_web.Build.Summary.{
  Maps, entries, sorted_entries, best, Entry, totals, totals-best,
}

connect_src_self : contains (resolve_origin (some (codes "https://a.example"))) self_source ≡ true
connect_src_self = resolve_origin_self (some (codes "https://a.example"))

abbrev hashes : List (Text × Text)
hashes = (codes "a.css", codes "c") ∷ (codes "a.js", codes "j") ∷ []

abbrev no_env : Text → Option Text
no_env name = none

build_csp_values-script_src_example :
    (any
        (text_eq (hash_source (codes "j")))
        (split_on b' ' (build_csp_values no_env hashes (codes "v") false false).script_src)
      ≡ true)
    × (any
          (text_eq (hash_source (codes "v")))
          (split_on b' ' (build_csp_values no_env hashes (codes "v") false false).script_src)
        ≡ true)
unfolding ends_with
build_csp_values-script_src_example =
    build_csp_values-script_src no_env hashes (codes "v") false 1 (codes "a.js") (codes "j")
      (refl, tt) ((refl, tt), ((refl, tt), tt)) refl refl

abbrev values : CspValues
values = record {
  script_src = codes "s";
  style_src = codes "c";
  img_src = codes "i";
  font_src = codes "f";
  media_src = codes "m";
  frame_src = codes "r";
  form_action = codes "a";
  connect_src = codes "n";
}

values-AreValues : AreValues values
values-AreValues = record {
  script = (refl, tt);
  style = (refl, tt);
  img = (refl, tt);
  font = (refl, tt);
  media = (refl, tt);
  frame = (refl, tt);
  form = (refl, tt);
  connect = (refl, tt);
}

abbrev page_source : Text
page_source = codes "<IMG>"

build_csp_for_source-read_policy_example :
    read_policy (build_csp_for_source page_source values)
    ≡ some (codes "default-src", codes "'none'")
      ∷ some (codes "script-src", codes "s")
      ∷ some (
        codes "style-src",
        used page_source (codes "stylesheet" ∷ codes "<style" ∷ []) (codes "c"),
      )
      ∷ some (
        codes "img-src",
        used page_source
            (codes "<img" ∷ codes "rel=\"icon\"" ∷ codes "rel='icon'" ∷ [])
            (codes "i"),
      )
      ∷ some
          (codes "font-src", used page_source (codes "font-" ∷ codes "@font-face" ∷ []) (codes "f"))
      ∷ some
          (codes "media-src", used page_source (codes "<audio" ∷ codes "<video" ∷ []) (codes "m"))
      ∷ some (codes "frame-src", used page_source (codes "<iframe" ∷ []) (codes "r"))
      ∷ some (codes "connect-src", codes "n")
      ∷ some (codes "manifest-src", codes "'self'")
      ∷ some (codes "object-src", codes "'none'")
      ∷ some (codes "base-uri", codes "'self'")
      ∷ some (codes "form-action", codes "a")
      ∷ some (codes "frame-ancestors", codes "'none'")
      ∷ []
build_csp_for_source-read_policy_example =
    build_csp_for_source-read_policy page_source values values-AreValues

abbrev inputs : Inputs
inputs = record {
  read_gz = λ f. some (codes "gz!");
  read_br = λ f. some (codes "br");
  read_zst = λ f. some (codes "z");
  uncompressed_lens = λ f. some 5;
  file_hashes = λ f. none;
  csp = λ f. codes "default-src 'none'";
  security_headers = [];
  build_version = codes "v1";
  not_found_filename = codes "404.html";
}

abbrev files : List Text
files = codes "a.js" ∷ codes "b.js" ∷ []

-- Two scripts share one header set.
abbrev collected : Metadata
unfolding add_asset
collected =
    add_asset inputs (codes "b.js") (codes "/b.js" ∷ []) (codes "gz!") (codes "br") (codes "z") (
      add_asset inputs (codes "a.js") (codes "/a.js" ∷ []) (codes "gz!") (codes "br") (codes "z")
        no_metadata)

collected_by : build_asset_metadata inputs files no_metadata ≡ some collected
unfolding build_asset_metadata step url_paths_for_file
collected_by = refl

all_files_in_order : Recorded inputs files collected
all_files_in_order = build_asset_metadata-Recorded inputs files collected_by

abbrev no_sets : HeaderSets
no_sets = record { sets = []; index = [] }

abbrev version_only : List Header
version_only = (codes "etag", codes "v1") ∷ []

interned_version_only :
    HasKey
      (intern version_only no_sets).1.sets
      (header_set_key version_only)
      (intern version_only no_sets).0
    × IsIndexed (intern version_only no_sets).1
    × ((key : Text) (i : ℕ) → HasKey [] key i → HasKey (intern version_only no_sets).1.sets key i)
interned_version_only = intern-HasKey version_only no_sets tt

abbrev summary : List Entry
summary =
    record { file = codes "a.js"; orig = 90; uncomp = 50; gz = 30; br = 20; zst = 25 }
    ∷ record { file = codes "b.js"; orig = 9; uncomp = 5; gz = 30; br = 20; zst = 25 }
    ∷ []

entries_best :
    ((totals summary).total_best
      ≡ total (λ (e : Entry). min e.uncomp (min e.gz (min e.br e.zst))) summary)
    × ((totals summary).total_best ≤ (totals summary).total_gz)
    × ((totals summary).total_best ≤ (totals summary).total_br)
    × ((totals summary).total_best ≤ (totals summary).total_zst)
entries_best = totals-best summary

script_policy : build_csp (λ f. none) (codes "a.js") values ≡ codes "default-src 'none'"
unfolding build_csp
script_policy = refl

-- Header sets that differ in their order have one key.
sorted_key :
    header_set_key ((codes "b", codes "1") ∷ (codes "a", codes "2") ∷ []) ≡ codes "a:2\nb:1"
unfolding header_set_key
sorted_key = refl

version_set : (build_version_headers (codes "v1") (version_only ∷ [])).0 ≡ 1
unfolding build_version_headers
version_set = refl

not_found_set :
    (build_not_found_headers (codes "h") build_non_csp_headers (version_only ∷ []) (codes "v1")).0
    ≡ 1
unfolding build_not_found_headers
not_found_set = refl

-- The sets of `/v` that are there already are used again.
version_set_again :
    (build_version_headers (codes "v1") (build_version_headers (codes "v1") []).1.sets).0 ≡ 0
unfolding build_version_headers
version_set_again = refl

abbrev all_maps : Maps
all_maps = record {
  original_lens = λ f. some (length f);
  uncompressed_lens = λ f. some 7;
  gzip_lens = λ f. some 3;
  br_lens = λ f. some 2;
  zst_lens = λ f. some 2;
}

abbrev entry_of : Text → ℕ → Entry
entry_of file orig = record { file = file; orig = orig; uncomp = 7; gz = 3; br = 2; zst = 2 }

largest_first :
    sorted_entries (entries all_maps (codes "a" ∷ codes "abc" ∷ []))
    ≡ entry_of (codes "abc") 3 ∷ entry_of (codes "a") 1 ∷ []
unfolding entries sorted_entries
largest_first = refl

best_is_zstd : best (entry_of (codes "a") 1) ≡ (2, codes "zst")
unfolding best
best_is_zstd = refl
