-- ===== src/Edge/Server/Reads.antt =====
-- internal/edge/server.go, servePayload: when nothing is sent again, and what arrives otherwise.
use anvil_forge.Prelude.{
  subst, sym, Bool, Member, Option, Text, any, any_of_member, ap, arith, codes, eq_text, eq_text-eq,
  eq_text_refl, false, find_member, if_cases, if◌then◌else◌, inl, inr, none, refl, some, suc, true,
  ◌&&◌, ◌||◌, ◌↔◌, ◌∙◌, ◌≡◌, ◌⊎◌,
}
use anvil_forge.Hiscores.Rsn.{trim_space, is_empty}
use anvil_forge.Edge.Headers.{
  equal_fold, first_part, trim_weak, split, matches_candidate, matches_etag, accepts_gzip,
}
use anvil_forge.Edge.Tables.{Payload, found}
use anvil_forge.Edge.Server.{
  Codec, Request, Response, Server, bytes, write_payload, serve_payload, stored_bytes, unpacked,
}

-- One item of an If-None-Match list stands for the tag: `*`, or the tag up to its weakness.
abbrev pub StandsFor : Text → Text → Type 0
StandsFor part current =
    (trim_space part ≡ codes "*") ⊎ (trim_weak (trim_space part) ≡ trim_weak current)

some_of : (a b c : Bool) → a || (b || c) ≡ true → (a ≡ true) ⊎ ((b ≡ true) ⊎ (c ≡ true))
some_of true b c h = inl refl
some_of false true c h = inr (inl refl)
some_of false false c h = inr (inr h)

or_third : (a b c : Bool) → c ≡ true → a || (b || c) ≡ true
or_third a b c h = ground arith

abbrev pub IsListed : Text → Text → Type 0
IsListed header current = (part : Text) × Member part (split b',' header) × StandsFor part current

matches_candidate_iff :
    (current part : Text) → (matches_candidate current part ≡ true) ↔ StandsFor part current
unfolding matches_candidate
matches_candidate_iff current part = (there, back)
  where
    there : matches_candidate current part ≡ true → StandsFor part current
    there h = elim (some_of _ _ _ h) [
      | inl e ↦ inl (eq_text-eq (trim_space part) (codes "*") e)
      | inr (inl e) ↦ inr (
          ap trim_weak {x = trim_space part} {y = current} (eq_text-eq (trim_space part) current e))
      | inr (inr e) ↦ inr (eq_text-eq (trim_weak (trim_space part)) (trim_weak current) e)
    ]

    back : StandsFor part current → matches_candidate current part ≡ true
    back (inl e) = rw e refl
    back (inr e) =
        or_third (eq_text (trim_space part) (codes "*")) (eq_text (trim_space part) current)
          (eq_text (trim_weak (trim_space part)) (trim_weak current))
          (rw e (eq_text_refl (trim_weak current)))

guard_true :
    (a b c : Bool) → (if a || b then false else c) ≡ true → (a ≡ false) × (b ≡ false) × (c ≡ true)
guard_true true b c h = absurd (ground (arith, h))
guard_true false true c h = absurd (ground (arith, h))
guard_true false false c h = (refl, refl, h)

-- A stored tag matches exactly if neither header nor tag is empty and one of the header's
-- comma-separated items is, trimmed, `*` or the tag up to the prefix `W/` on either side.
pub matches_etag_iff :
    (if_none_match current : Text)
    → (matches_etag if_none_match current ≡ true) ↔ (
        (is_empty if_none_match ≡ false)
        × (is_empty current ≡ false)
        × IsListed if_none_match current)
unfolding matches_etag
matches_etag_iff if_none_match current = (there, back)
  where
    items :
        any (matches_candidate current) (split b',' if_none_match) ≡ true
        → IsListed if_none_match current
    items h =
        let (part, m, e) = find_member (matches_candidate current) (split b',' if_none_match) h in
        (part, m, (matches_candidate_iff current part).0 e)

    there :
        matches_etag if_none_match current ≡ true
        → (is_empty if_none_match ≡ false)
          × (is_empty current ≡ false)
          × IsListed if_none_match current
    there h = let (a, b, i) = guard_true _ _ _ h in (a, b, items i)

    back :
        (is_empty if_none_match ≡ false)
          × (is_empty current ≡ false)
          × IsListed if_none_match current
        → matches_etag if_none_match current ≡ true
    back (a, b, (part, m, e)) = rw a (
        rw b (
          any_of_member (matches_candidate current) (split b',' if_none_match) part m
            ((matches_candidate_iff current part).1 e)))

-- An item of the header, up to its first `;`, is gzip in whatever case.
abbrev pub NamesGzip : Text → Type 0
NamesGzip header =
    (part : Text) × Member part (split b',' header)
    × (equal_fold (trim_space (first_part (split b';' part))) (codes "gzip") ≡ true)

accepts_gzip_iff : (header : Text) → (accepts_gzip header ≡ true) ↔ NamesGzip header
unfolding accepts_gzip
accepts_gzip_iff header =
    let names =
      λ (part : Text). equal_fold (trim_space (first_part (split b';' part))) (codes "gzip") in
    (
      find_member names (split b',' header),
      λ (part, m, e). any_of_member names (split b',' header) part m e,
    )

and_both : (a b : Bool) → a && b ≡ true → (a ≡ true) × (b ≡ true)
and_both true b h = (refl, h)
and_both false b h = absurd (ground (arith, h))

-- Stored as gzip, and named by the request.
abbrev pub IsGzipped : Request → Payload → Type 0
IsGzipped r p = (p.encoding ≡ codes "gzip") × NamesGzip r.accept_encoding

IsGzipped-iff :
    (r : Request) (p : Payload)
    → (eq_text p.encoding (codes "gzip") && accepts_gzip r.accept_encoding ≡ true) ↔ IsGzipped r p
unfolding eq_text
IsGzipped-iff r p = (
  λ h.
      let (a, b) = and_both _ _ h in
      (eq_text-eq p.encoding (codes "gzip") a, (accepts_gzip_iff r.accept_encoding).0 b),
  λ (e, n). rw ((accepts_gzip_iff r.accept_encoding).1 n) (rw e refl),
)

module _ (c : Codec) where
  -- What the stored bytes say.
  abbrev pub content : Payload → Option Text
  content p = if eq_text p.encoding (codes "gzip") then c.gunzip p.body else some p.body

  -- What a client that honours Content-Encoding reads from an answer.
  abbrev pub received : Response → Option Text
  received a = elim a.body [ bytes b ↦ (if a.gzip then c.gunzip b else some b) | _ ↦ none ]

  abbrev pub IsRead : Payload → Text → Bool → Response → Type 0
  IsRead p text gzip a =
      (a.etag ≡ some p.etag) × (a.status ≡ 200) × (received a ≡ some text) × (a.gzip ≡ gzip)

  abbrev pub IsAnswered : Request → Payload → Server → Text → Server × Response → Type 0
  IsAnswered r p s text (s', a) =
      ((matches_etag r.if_none_match p.etag ≡ true)
        × (a.etag ≡ some p.etag)
        × (a.status ≡ 304)
        × (s'.counters ≡ record s.counters { not_modified = suc s.counters.not_modified }))
      ⊎ ((matches_etag r.if_none_match p.etag ≡ false)
          × (a.etag ≡ some p.etag)
          × (a.status ≡ 200)
          × (received a ≡ some text)
          × ((a.gzip ≡ true) ↔ IsGzipped r p)
          × (s'.counters ≡ record s.counters { served = suc s.counters.served }))

  write_payload-received :
      (r : Request) (p : Payload) (text : Text)
      → content p ≡ some text
      → IsRead p text
          (eq_text p.encoding (codes "gzip") && accepts_gzip r.accept_encoding)
          (write_payload c r p)
  unfolding write_payload
  write_payload-received r p text h =
      go (eq_text p.encoding (codes "gzip")) (accepts_gzip r.accept_encoding) (c.gunzip p.body) refl
        h
    where
      go :
          (stored accepts : Bool) (z : Option Text)
          → c.gunzip p.body ≡ z
          → (if stored then z else some p.body) ≡ some text
          → IsRead p text (stored && accepts) (
              if stored
              then (if accepts then stored_bytes p true p.body else unpacked p z)
              else stored_bytes p false p.body)
      go false accepts z e h = (refl, refl, h, refl)
      go true true z e h = (refl, refl, e ∙ h, refl)
      go true false none e h = absurd (ground (arith, h))
      go true false (some b) e h = (refl, refl, h, refl)

  -- A payload whose stored bytes can be read is answered under its tag: with 304 if the request's
  -- If-None-Match matches the tag, and else with 200 and bytes that say the same, compressed exactly
  -- if they are stored as gzip and an item of the request's Accept-Encoding, up to its first `;`, is gzip
  -- (also with the `;q=0` that refuses it). One counter goes up by one.
  pub serve_payload-IsAnswered :
      (r : Request) (p : Payload) (s : Server) (text : Text)
      → content p ≡ some text
      → IsAnswered r p s text (serve_payload c r (found p) s)
  unfolding serve_payload
  serve_payload-IsAnswered r p s text h =
      if_cases (IsAnswered r p s text) (matches_etag r.if_none_match p.etag) _ _
        (λ e. inl (e, refl, refl, refl))
        (λ e.
          let (tag, status, reads, gzip) = write_payload-received r p text h in
          inr (
            e,
            tag,
            status,
            reads,
            subst (λ b. (b ≡ true) ↔ IsGzipped r p) (sym gzip) (IsGzipped-iff r p),
            refl,
          ))
