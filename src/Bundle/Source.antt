-- ===== src/Bundle/Source.antt =====
-- Where the bytes of a layer come from.
use mathlib.Core.Path.{subst}
use resolution.Prelude.{
  ℕ, suc, String, ◌≡◌, ◌⊎◌, inl, inr, refl, ap, ◌∙◌, sym, Option, none, some, List, [], ◌∷◌, GoMap,
  find, Result, ok, first_step, next_step, ok_injective, arith, get_elem?, ◌==◌, =?_iff, eq_iff,
  if-cases,
}
use resolution.Common.Errors.{Error}
use resolution.Api.{Bytes}
use resolution.Framework.{ResolvedResource}
use resolution.Bundle.{
  RequestOptions, ManifestLayer, ReadOnce, Registry, whole, search, from_tar, from_raw, otherwise,
  chosen, matched, entry_annotations, bundle_annotation_kind, bundle_annotation_name,
  bundle_annotation_api_version,
}

module _ {Ref Keychain Image Layer Reader Tar : Type 0}
    (g : Registry Ref Keychain Image Layer Reader Tar) where
  -- The first entry of a tarball, which one Read returned whole.
  pub record FromTar (l : Layer) (content : Bytes) : Type 0 where
    pub reader : Reader
    pub size : ℕ
    pub tar : Tar
    unpacked : g.uncompressed l ≡ ok reader
    headed : g.next reader ≡ ok (size, tar)
    pub complete : (g.read_once size tar).count ≡ size
    pub buffer : content ≡ (g.read_once size tar).buffer

  -- All of a layer that is no tarball.
  pub record FromRaw (l : Layer) (content : Bytes) : Type 0 where
    pub reader : Reader
    unpacked : g.uncompressed l ≡ ok reader
    pub read : g.read_all reader ≡ ok content

  -- Where the resource of a matching layer of the manifest comes from: the image's layer with its
  -- digest, with the annotations, or the image's layer in its place, with none.
  pub data Source (image : Image) (annotations : GoMap) (digest : String) (idx : ℕ)
      : ResolvedResource → Type 0 where
    by_digest :
        (ls : List Layer) (i : ℕ) (l : Layer) (content : Bytes)
        → g.layers image ≡ ok ls
        → get_elem? ls i ≡ some l
        → g.layer_digest l ≡ ok digest
        → FromTar l content
        → Source image annotations digest idx
            (record { content = content; annotations = annotations })
    by_place :
        (ls : List Layer) (l : Layer) (content : Bytes)
        → g.layers image ≡ ok ls
        → get_elem? ls idx ≡ some l
        → FromRaw l content
        → Source image annotations digest idx (record { content = content; annotations = none })

  -- A layer of the manifest that is the entry asked for, and its resource.
  pub record Serves (opts : RequestOptions) (image : Image) (idx : ℕ) (m : ManifestLayer)
      (r : ResolvedResource) : Type 0 where
    pub version : String
    pub kind : find bundle_annotation_kind m.annotations ≡ some opts.kind
    pub name : find bundle_annotation_name m.annotations ≡ some opts.entry_name
    pub api_version : find bundle_annotation_api_version m.annotations ≡ some version
    pub source : Source image (entry_annotations opts.kind opts.entry_name version) m.digest idx r

  search-found :
      (wanted : String) (ls : List Layer) (l : Layer)
      → search g wanted ls ≡ ok (some l)
      → (g.layer_digest l ≡ ok wanted) × ((i : ℕ) × (get_elem? ls i ≡ some l))
  unfolding search
  search-found wanted [] l h = cc
  search-found wanted (x ∷ ls) l h =
      let (d, e, h1) = first_step _ (g.layer_digest x) _ (some l) h in
      elim (if-cases (d == wanted) (ok (some x)) (search g wanted ls) (ok (some l)) h1) [
        | inl (same, here) ↦
            let at : some x ≡ some l = ok_injective here in
            (
              subst (λ o. digest_of o ≡ ok wanted) at (e ∙ ap ok ((eq_iff d wanted).0 same)),
              (0, at),
            )
        | inr (other, later) ↦ let (f, (i, at)) = search-found wanted ls l later in (f, (suc i, at))
      ]
    where
      digest_of : Option Layer → Result Error String
      digest_of none = ok ""
      digest_of (some y) = g.layer_digest y

  whole-ok :
      (size : ℕ) (r : ReadOnce) (content : Bytes)
      → whole size r ≡ ok content
      → (r.count ≡ size) × (content ≡ r.buffer)
  unfolding whole
  whole-ok size r content h = ground (arith, =?_iff r.count size)

  -- A resource from a tarball.
  from_tar-ok :
      (annotations : GoMap) (l : Layer) (r : ResolvedResource)
      → from_tar g annotations l ≡ ok r
      → FromTar l r.content × (record { content = r.content; annotations = annotations } ≡ r)
  unfolding from_tar
  from_tar-ok annotations l r h =
      let (reader, u, h1) = first_step _ (g.uncompressed l) _ r h in
      let ((size, tar), n, h2) = first_step _ (g.next reader) _ r h1 in
      let (content, w, h3) = next_step (whole size (g.read_once size tar)) _ r h2 in
      let (complete, buffer) = whole-ok size (g.read_once size tar) content w in
      let same : record { content = content; annotations = annotations } ≡ r = ok_injective h3 in
      (
        record {
          reader = reader;
          size = size;
          tar = tar;
          unpacked = u;
          headed = n;
          complete = complete;
          buffer = ap (λ x. x.content) (sym same) ∙ buffer;
        },
        ap (λ x. record { content = x.content; annotations = annotations }) (sym same) ∙ same,
      )

  from_raw-ok :
      (l : Layer) (r : ResolvedResource)
      → from_raw g l ≡ ok r
      → FromRaw l r.content × (record { content = r.content; annotations = none } ≡ r)
  unfolding from_raw
  from_raw-ok l r h =
      let (reader, u, h1) = first_step _ (g.uncompressed l) _ r h in
      let (content, c, h2) = first_step _ (g.read_all reader) _ r h1 in
      let same : record { content = content; annotations = none } ≡ r = ok_injective h2 in
      (
        record { reader = reader; unpacked = u; read = c ∙ ap (λ x. ok x.content) same },
        ap (λ x. record { content = x.content; annotations = none }) (sym same) ∙ same,
      )

  pub matched-ok :
      (annotations : GoMap) (rest : Result Error ResolvedResource) (idx : ℕ) (digest : String)
      (image : Image) (r : ResolvedResource)
      → matched g annotations rest idx digest image ≡ ok r
      → Source image annotations digest idx r ⊎ (rest ≡ ok r)
  unfolding matched
  matched-ok annotations rest idx digest image r h =
      let (ls, l, h1) = first_step _ (g.layers image) _ r h in
      let (found, s, h2) = next_step (search g digest ls) _ r h1 in sourced ls found l s h2
    where
      placed :
          (ls : List Layer) (o : Option Layer)
          → g.layers image ≡ ok ls
          → get_elem? ls idx ≡ o
          → otherwise g rest o ≡ ok r
          → Source image annotations digest idx r ⊎ (rest ≡ ok r)
      placed ls none l at h = inr h
      placed ls (some layer) l at h =
          let (raw, same) = from_raw-ok layer r h in
          inl (
            subst (Source image annotations digest idx) same (by_place ls layer r.content l at raw))

      sourced :
          (ls : List Layer) (found : Option Layer)
          → g.layers image ≡ ok ls
          → search g digest ls ≡ ok found
          → chosen g annotations rest idx ls found ≡ ok r
          → Source image annotations digest idx r ⊎ (rest ≡ ok r)
      sourced ls none l s h = placed ls (get_elem? ls idx) l refl h
      sourced ls (some layer) l s h =
          let (tarball, same) = from_tar-ok annotations layer r h in
          let (d, (i, at)) = search-found digest ls layer s in
          inl (
            subst (Source image annotations digest idx) same
              (by_digest ls i layer r.content l at d tarball))
