-- ===== src/Bundle.antt =====
-- bundleresolver: the resolver that fetches an entry of a Tekton bundle from a registry (bundle.go,
-- params.go and annotations.go of pkg/bundle, and cmd/bundleresolver/main.go), over an interface for
-- the registry library and the tar reader.
pub mod Options
pub mod Source
pub mod Entry
pub mod Tests
use Prim.Native.String.{◌++◌}
use resolution.Prelude.{
  ℕ, suc, get_elem?, String, Bool, true, false, ◌&&◌, Option, none, some, List, [], ◌∷◌, GoMap,
  find, Result, ok, err, ◌>>=◌, map_err, ◌==◌, ◌=?◌, if◌then◌else◌, quote, decimal,
}
use resolution.Common.{label_key_resolver_type}
use resolution.Common.Errors.{Error, plain, wrapped}
use resolution.Common.Context.{Ctx, request_namespace}
use resolution.Api.{Bytes}
use resolution.Framework.{ResolvedResource, Resolver}

abbrev pub param_service_account : String
param_service_account = "serviceAccount"

abbrev pub param_bundle : String
param_bundle = "bundle"

abbrev pub param_name : String
param_name = "name"

abbrev pub param_kind : String
param_kind = "kind"

abbrev pub default_service_account_name : String
default_service_account_name = "default"

abbrev pub bundle_annotation_kind : String
bundle_annotation_kind = "dev.tekton.image.kind"

abbrev pub bundle_annotation_name : String
bundle_annotation_name = "dev.tekton.image.name"

abbrev pub bundle_annotation_api_version : String
bundle_annotation_api_version = "dev.tekton.image.apiVersion"

-- RequestOptions
pub record RequestOptions : Type 0 where
  pub service_account : String
  pub bundle : String
  pub entry_name : String
  pub kind : String

-- A layer in a manifest: its annotations, and its digest as a text.
pub record ManifestLayer : Type 0 where
  pub annotations : GoMap
  pub digest : String

pub data ReadFailure : Type 0 where
  eof : ReadFailure
  failure : Error → ReadFailure

-- What one Read of the tar reader does: the number of bytes that it got, the buffer, and its error.
pub record ReadOnce : Type 0 where
  pub count : ℕ
  pub buffer : Bytes
  pub failed : Option ReadFailure

-- The registry: references, keychains, images, layers, and readers of a layer and of its tarball.
pub record Registry (Ref Keychain Image Layer Reader Tar : Type 0) : Type 0 where
  pub parse_reference : String → Result Error Ref
  -- k8schain.New of a namespace and a service account, which returns a keychain beside its error
  pub new_keychain : String → String → Keychain × Option Error
  pub remote_image : Ctx → Keychain → Ref → Result Error Image
  pub manifest : Image → Result Error (List ManifestLayer)
  pub layers : Image → Result Error (List Layer)
  pub layer_digest : Layer → Result Error String
  pub uncompressed : Layer → Result Error Reader
  -- tar.NewReader and Next: the size in the header, and the reader of the entry
  pub next : Reader → Result Error (ℕ × Tar)
  pub read_once : ℕ → Tar → ReadOnce
  pub read_all : Reader → Result Error Bytes

abbrev pub or_default : String → Option String → String
or_default d none = d
or_default d (some s) = s

-- `v, ok := m[k]`, with an error where it is not there
abbrev pub demand : String → Option String → Result Error String
demand text none = err (plain text)
demand text (some v) = ok v

-- `if n, err := tarReader.Read(data); err != nil && err != io.EOF`, and the test of its size
whole : ℕ → ReadOnce → Result Error Bytes
whole size r = elim r.failed [
  | none ↦ sized
  | some f ↦ elim f [ eof ↦ sized | failure e ↦ err (wrapped "invalid tarball: " e) ]
]
  where
    sized : Result Error Bytes
    sized =
        if r.count =? size
        then ok r.buffer
        else err (
            plain (
              "layer data does not match size reported in header: expected "
              ++ (decimal size ++ (" received " ++ decimal r.count))))

abbrev layer_error : String → ℕ → String
layer_error what idx = what ++ (" annotation not found in bundle layer " ++ decimal idx)

abbrev pub entry_annotations : String → String → String → GoMap
entry_annotations kind name version = some (
    (bundle_annotation_kind, kind)
    ∷ (bundle_annotation_name, name)
    ∷ (bundle_annotation_api_version, version)
    ∷ [])

module _ {Ref Keychain Image Layer Reader Tar : Type 0}
    (g : Registry Ref Keychain Image Layer Reader Tar) where
  -- OptionsFromParams
  unfoldable pub options_from_params : GoMap → Result Error RequestOptions
  options_from_params params = do
    bundle ← demand ("parameter " ++ (quote param_bundle ++ " required")) (find param_bundle params)
    reference ← map_err (wrapped "invalid bundle reference: ") (g.parse_reference bundle)
    name ← demand ("parameter " ++ (quote param_name ++ " required")) (find param_name params)
    kind ← demand ("paramater " ++ (quote param_kind ++ " required")) (find param_kind params)
    ok (record {
      service_account = or_default default_service_account_name (find param_service_account params);
      bundle = bundle;
      entry_name = name;
      kind = kind;
    })

  -- The loop over the layers of the image: the first whose digest is the wanted one.
  search : String → List Layer → Result Error (Option Layer)
  search wanted [] = ok none
  search wanted (l ∷ ls) =
      let rest = search wanted ls in
      map_err (wrapped "error reading layer digest: ") (g.layer_digest l) >>= λ d.
      if d == wanted then ok (some l) else rest

  -- A layer that is a tarball: its first entry, in one Read.
  unfoldable pub from_tar : GoMap → Layer → Result Error ResolvedResource
  unfolding whole
  from_tar annotations l = do
    reader ← map_err (wrapped "error decompressing layer: ") (g.uncompressed l)
    entry ← map_err (wrapped "error reading tarball header: ") (g.next reader)
    content ← whole entry.0 (g.read_once entry.0 entry.1)
    ok (record { content = content; annotations = annotations })

  -- A raw layer, which has no annotations.
  unfoldable pub from_raw : Layer → Result Error ResolvedResource
  from_raw l = do
    reader ← map_err (wrapped "error decompressing layer: ") (g.uncompressed l)
    content ← map_err (wrapped "error reading layer content: ") (g.read_all reader)
    ok (record { content = content; annotations = none })

  -- `if idx < len(layers)`
  abbrev pub otherwise :
      Result Error ResolvedResource → Option Layer → Result Error ResolvedResource
  otherwise rest none = rest
  otherwise rest (some l) = from_raw l

  abbrev pub chosen :
      GoMap
      → Result Error ResolvedResource
      → ℕ
      → List Layer
      → Option Layer
      → Result Error ResolvedResource
  chosen annotations rest idx ls none = otherwise rest (get_elem? ls idx)
  chosen annotations rest idx ls (some l) = from_tar annotations l

  -- What is done for a layer of the manifest that is the wanted entry; `rest` is the loop's rest.
  unfoldable pub matched :
      GoMap → Result Error ResolvedResource → ℕ → String → Image → Result Error ResolvedResource
  unfolding search
  matched annotations rest idx digest image = do
    ls ← map_err (wrapped "error reading layers: ") (g.layers image)
    found ← search digest ls
    chosen annotations rest idx ls found

  -- The loop over the layers of the manifest, from one with the number `idx`.
  unfoldable pub entries_from :
      RequestOptions → Image → ℕ → List ManifestLayer → Result Error ResolvedResource
  unfolding matched
  entries_from opts image idx [] = err (plain "no matching image layer")
  entries_from opts image idx (m ∷ ms) =
      let rest = entries_from opts image (suc idx) ms in
      let step : Result Error ResolvedResource = do
        kind ← demand (layer_error "kind" idx) (find bundle_annotation_kind m.annotations)
        name ← demand (layer_error "name" idx) (find bundle_annotation_name m.annotations)
        version ←
            demand (layer_error "apiVersion" idx) (find bundle_annotation_api_version m.annotations)
        if (kind == opts.kind) && (name == opts.entry_name)
            then matched (entry_annotations kind name version) rest idx m.digest image
            else rest
      in step

  -- GetEntry
  unfoldable pub get_entry : Ctx → Keychain → RequestOptions → Result Error ResolvedResource
  unfolding entries_from
  get_entry ctx keychain opts = do
    reference ← map_err (wrapped "invalid bundle reference: ") (g.parse_reference opts.bundle)
    image ← map_err (wrapped "error retrieving image: ") (g.remote_image ctx keychain reference)
    ms ← map_err (wrapped "error parsing bundle manifest: ") (g.manifest image)
    entries_from opts image 0 ms

  abbrev pub error_only : Result Error RequestOptions → Option Error
  error_only (ok opts) = none
  error_only (err e) = some e

  -- Resolve: the error of k8schain.New is not looked at.
  unfoldable pub resolve : Ctx → GoMap → Result Error ResolvedResource
  unfolding options_from_params get_entry
  resolve ctx params = do
    opts ← options_from_params params
    get_entry ctx (g.new_keychain (request_namespace ctx) opts.service_account).0 opts

  -- The resolver, as the framework takes it.
  abbrev pub bundle_resolver : Resolver
  bundle_resolver = record {
    get_name = λ ctx. "bundleresolver";
    get_selector = λ ctx. some ((label_key_resolver_type, "bundles") ∷ []);
    validate_params = λ ctx params. error_only (options_from_params params);
    resolve = resolve;
    get_resolution_timeout = none;
    get_config_name = none;
  }
