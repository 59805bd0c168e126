-- ===== src/Adapters/Frontmatter/Splitting.antt =====
-- What a split gives, on files that are written and on files that are read.
use luminosity.Base.{
  Bool, true, false, not, Text, codes, List, [], ◌∷◌, ◌++◌, all, split_inclusive, Bool-cases, inl,
  inr, append_assoc, append-nil, concat, concat-split_inclusive, ok, ◌≡◌, refl, sym, ap, ◌∙◌, arith,
}
use luminosity.Adapters.Frontmatter.{Split, is_fence, collect, close, split_segments, split}
use luminosity.Adapters.Frontmatter.Lines.{IsBlock, split_inclusive-append}

abbrev pub no_fences : List Text → Bool
no_fences = all (λ s. not (is_fence s))

abbrev fence : Text
fence = codes "---\n"

collect_closed :
    (ss : List Text) (frontmatter body : Text)
    → collect ss frontmatter body true
      ≡ (record { frontmatter = frontmatter; body = body ++ concat ss }, true)
unfolding collect
collect_closed [] frontmatter body = rw append-nil
collect_closed (s ∷ ss) frontmatter body =
    collect_closed ss frontmatter (body ++ s) ∙ rw append_assoc

collect_open :
    (ss ts : List Text) (frontmatter : Text)
    → no_fences ss ≡ true
    → collect (ss ++ ts) frontmatter [] false ≡ collect ts (frontmatter ++ concat ss) [] false
unfolding collect
collect_open [] ts frontmatter h = rw append-nil
collect_open (s ∷ ss) ts frontmatter h =
    ground (arith, collect_open ss ts (frontmatter ++ s), append_assoc frontmatter s (concat ss))

collect_fence :
    (s : Text) (ss : List Text) (frontmatter : Text)
    → is_fence s ≡ true
    → collect (s ∷ ss) frontmatter [] false
      ≡ (record { frontmatter = frontmatter; body = concat ss }, true)
unfolding collect
collect_fence s ss frontmatter h = rw h (collect_closed ss frontmatter [])

fence-is_fence : is_fence (codes "---\n") ≡ true
unfolding is_fence
fence-is_fence = refl

-- A frontmatter of whole lines with no fence among them, put between two fences in front of any
-- body, is split into exactly these two, whatever fences the body holds.
pub split-block :
    (frontmatter body : Text)
    → IsBlock frontmatter
    → split (codes "---\n" ++ (frontmatter ++ (codes "---\n" ++ body)))
      ≡ ok (record { frontmatter = frontmatter; body = body })
unfolding split split_segments
split-block frontmatter body b = rw (
  fence-is_fence,
  split_inclusive-append frontmatter (codes "---\n" ++ body) b.whole_lines,
  collect_open (split_inclusive b'\n' frontmatter) (split_inclusive b'\n' (codes "---\n" ++ body))
      [] b.no_fence,
  collect_fence (codes "---\n") (split_inclusive b'\n' body)
      (concat (split_inclusive b'\n' frontmatter)) fence-is_fence,
  concat-split_inclusive,
  concat-split_inclusive,
)

-- How a file reads that splits: with no fence in front it is all body; else it is an opening
-- fence, lines that are no fence, a closing fence, and the body.
pub data Reads (content : Text) (s : Split) : Type 0 where
  all_body :
      ((first : Text)
        → (rest : List Text) → split_inclusive b'\n' content ≡ first ∷ rest
        → is_fence first ≡ false)
      → s ≡ record { frontmatter = []; body = content }
      → Reads content s
  fenced :
      (opening closing : Text) (lines : List Text)
      → is_fence opening ≡ true
      → no_fences lines ≡ true
      → is_fence closing ≡ true
      → s.frontmatter ≡ concat lines
      → content ≡ opening ++ (concat lines ++ (closing ++ s.body))
      → Reads content s

-- The segments behind the opening fence, up to the closing one and behind it.
record Closed (segments : List Text) (frontmatter : Text) (s : Split) : Type 0 where
  lines : List Text
  closing : Text
  behind : List Text
  parts : segments ≡ lines ++ closing ∷ behind
  no_fence : no_fences lines ≡ true
  is_closing : is_fence closing ≡ true
  frontmatter_is : s.frontmatter ≡ frontmatter ++ concat lines
  body_is : s.body ≡ concat behind

collect-Closed :
    (segments : List Text) (frontmatter : Text) (s : Split)
    → close (collect segments frontmatter [] false) ≡ ok s
    → Closed segments frontmatter s
unfolding collect close
collect-Closed [] frontmatter s h = cc
collect-Closed (t ∷ ts) frontmatter s h = elim (Bool-cases (is_fence t)) [
  | inl yes_fence ↦
      let e = ap close (collect_fence t ts frontmatter yes_fence) in
      let same : s ≡ record { frontmatter = frontmatter; body = concat ts } = cc (e, h) in
      record {
        lines = [];
        closing = t;
        behind = ts;
        parts = refl;
        no_fence = refl;
        is_closing = yes_fence;
        frontmatter_is = ap (λ (r : Split). r.frontmatter) same ∙ sym (append-nil frontmatter);
        body_is = ap (λ (r : Split). r.body) same;
      }
  | inr no_fence ↦
      let c = collect-Closed ts (frontmatter ++ t) s (rw no_fence at h) in
      record {
        lines = t ∷ c.lines;
        closing = c.closing;
        behind = c.behind;
        parts = ap (◌∷◌ t) c.parts;
        no_fence = rw (no_fence, c.no_fence);
        is_closing = c.is_closing;
        frontmatter_is = c.frontmatter_is ∙ append_assoc frontmatter t (concat c.lines);
        body_is = c.body_is;
      }
]

concat-append : (ss ts : List Text) → concat (ss ++ ts) ≡ concat ss ++ concat ts
concat-append [] ts = refl
concat-append (s ∷ ss) ts = rw (concat-append ss ts, append_assoc)

split_segments-Reads :
    (content : Text) (s : Split) (segments : List Text)
    → split_inclusive b'\n' content ≡ segments
    → split_segments content segments ≡ ok s
    → Reads content s
unfolding split_segments
split_segments-Reads content s [] e h = all_body (λ first rest p. cc (e, p)) (cc)
split_segments-Reads content s (t ∷ ts) e h = elim (Bool-cases (is_fence t)) [
  | inr plain ↦ all_body (λ first rest p. rw (first_same first rest p) plain) (cc (rw plain at h))
  | inl opening ↦
      let c = collect-Closed ts [] s (rw opening at h) in
      fenced t c.closing c.lines opening c.no_fence c.is_closing c.frontmatter_is (
        sym (concat-split_inclusive b'\n' content)
        ∙ ap concat e
        ∙ ap (λ (u : Text). t ++ u)
            (ap concat c.parts
              ∙ concat-append c.lines (c.closing ∷ c.behind)
              ∙ ap (λ (u : Text). concat c.lines ++ (c.closing ++ u)) (sym c.body_is)))
]
  where
    first_same :
        (first : Text) (rest : List Text) → split_inclusive b'\n' content ≡ first ∷ rest → first ≡ t
    first_same first rest p = cc (e, p)

-- Every split that succeeds is one of these two readings of the file.
pub split-Reads : (content : Text) (s : Split) → split content ≡ ok s → Reads content s
unfolding split
split-Reads content s h = split_segments-Reads content s (split_inclusive b'\n' content) refl h
