-- ===== src/Claude/Stopped.antt =====
-- The row that a pass of anton-runtime/src/claude.rs leaves is resumed by the next one.
use herdr_observatory.Claude.Classifier.{Context}
use herdr_observatory.Claude.Parse.{parse_line, is_terminated, line}
use herdr_observatory.Claude.Placed.{Steady, read_line-Steady, read_line-offset, line-within}
use herdr_observatory.Claude.Reader.{line_limit, Reader}
use herdr_observatory.Claude.Resume.{
  resume_from, is_same_content, pass, start_of, resume, is_in_place, is_bound, bound_header,
  restart, resumable, new_reader, File, header, take, drop,
}
use herdr_observatory.Claude.Resumed.{Passes}
use herdr_observatory.Claude.Resumes.{pass-Place}
use herdr_observatory.Json.{Value}
use herdr_observatory.Prelude.{
  String, ℕ, Bool, false, true, eq_iff, ◌==◌, str_eq, ◌&&◌, subst, length-append, &&-eq_true, ltb,
  ap, length, List, Option, none, some, [], ◌∷◌, ◌++◌, not, ◌||◌, ◌≡◌, refl, if_elim, arith, suc,
  zero, ◌≤◌, ◌+◌, ◌-◌,
}
use herdr_observatory.Result.{Result, ok, err}

take-append : (n : ℕ) (xs ys : List ℕ) → n ≤ length xs → take n (xs ++ ys) ≡ take n xs
take-append zero xs ys h = refl
take-append (suc n) [] ys h = absurd (omega (arith, h))
take-append (suc n) (b ∷ xs) ys h = ap (λ bytes. b ∷ bytes) (take-append n xs ys (omega (arith, h)))

abbrev pub IsLineOf : List ℕ → Result (List ℕ) → Type 0
IsLineOf content (ok head) = length head ≤ length content
IsLineOf content (err e) = Unit

-- How a pass leaves its row.
pub record Stopped (x : Context) (head : List ℕ) (file : File) (r : Reader) : Type 0 where
  pub steady : Steady file.device file.inode r
  pub from_head : length head ≤ r.offset
  pub within : r.offset ≤ length file.bytes
  pub sealed_with :
      r.fingerprint
      ≡ some (record {
        size = length file.bytes;
        mtime_us = file.mtime_us;
        header = x.digest head;
        tail = x.digest (drop (r.offset - 1024) (take r.offset file.bytes));
      })

-- How a pass starts.
pub record Started (head : List ℕ) (file : File) (r : Reader) : Type 0 where
  pub steady : Steady file.device file.inode r
  pub from_head : length head ≤ r.offset
  pub within : r.offset ≤ length file.bytes

in_place-Started :
    (head : List ℕ) (file : File) (r : Reader)
    → is_in_place head file r ≡ true
    → Started head file r
in_place-Started head file r h = record {
  steady = record {
    same_device = ground (arith, h);
    same_inode = ground (arith, h);
    skips = ground (arith, h);
  };
  from_head = ground (arith, h);
  within = ground (arith, h);
}

pub in_place_of :
    (head : List ℕ) (file : File) (r : Reader)
    → Started head file r
    → is_in_place head file r ≡ true
in_place_of head file r k =
    ground (arith, k.steady.same_device, k.steady.same_inode, k.steady.skips, k.from_head, k.within)

module _ (x : Context) (from_slice : List ℕ → Option Value) where
  bound_header-IsLineOf :
      (content bytes : List ℕ) (o : Option Bool)
      → length bytes ≤ length content
      → IsLineOf content (bound_header x from_slice bytes o)
  bound_header-IsLineOf content bytes none h = tt
  bound_header-IsLineOf content bytes (some true) h = h
  bound_header-IsLineOf content bytes (some false) h = tt

  header-IsLineOf : (content : List ℕ) → IsLineOf content (header x from_slice content)
  unfolding header
  header-IsLineOf content =
      let bytes = (line (line_limit + 1) content).0 in
      if_elim (IsLineOf content) (ltb line_limit (length bytes) || not (is_terminated bytes))
        (λ _. tt)
        (λ _.
          bound_header-IsLineOf content bytes
            (is_bound x from_slice bytes (parse_line from_slice bytes))
            (line-within (line_limit + 1) content))

  restart-Started :
      (head : List ℕ) (file : File)
      → length head ≤ length file.bytes
      → Started head file (restart x from_slice head file)
  unfolding restart
  restart-Started head file h =
      let n = new_reader file (length head) in
      record {
        steady =
            read_line-Steady x from_slice head n
              (record { same_device = refl; same_inode = refl; skips = refl });
        from_head = rw (read_line-offset x from_slice head n) (omega arith);
        within = rw (read_line-offset x from_slice head n) h;
      }

  resumable-Started :
      (head : List ℕ) (file : File) (r : Reader)
      → resumable x from_slice head file r ≡ true
      → Started head file r
  unfolding resumable
  resumable-Started head file r h =
      in_place-Started head file r ((&&-eq_true (is_in_place head file r) _ h).0)

  start_of-Started :
      (head : List ℕ) (file : File) (previous : Option Reader)
      → length head ≤ length file.bytes
      → Started head file ((start_of x from_slice head file previous).0)
  unfolding start_of
  start_of-Started head file none h = restart-Started head file h
  start_of-Started head file (some r) h =
      if_elim (λ (p : Reader × Bool). Started head file (p.0)) (resumable x from_slice head file r)
        (λ e. resumable-Started head file r e) (λ _. restart-Started head file h)

  pass-Stopped :
      (ticks : ℕ) (head : List ℕ) (file : File) (r : Reader)
      → Started head file r
      → Stopped x head file (pass x from_slice ticks head file r)
  unfolding pass
  pass-Stopped ticks head file r k =
      let p = pass-Place x from_slice ticks head file r k.steady k.within in
      record {
        steady = p.0;
        from_head = omega (arith, k.from_head, p.1.0);
        within = p.1.1;
        sealed_with = refl;
      }

  resume_from-Stopped :
      (ticks : ℕ) (file : File) (previous : Option Reader) (head : List ℕ)
      → length head ≤ length file.bytes
      → Passes (Stopped x head file) (resume_from x from_slice ticks file previous (ok head))
  resume_from-Stopped ticks file previous head h =
      pass-Stopped ticks head file ((start_of x from_slice head file previous).0)
        (start_of-Started head file previous h)

  pub resume-Stopped :
      (ticks : ℕ) (file : File) (previous : Option Reader) (head : List ℕ)
      → header x from_slice file.bytes ≡ ok head
      → Passes (Stopped x head file) (resume x from_slice ticks file previous)
  unfolding resume
  resume-Stopped ticks file previous head e = rw (e) (
      resume_from-Stopped ticks file previous head
        (subst (IsLineOf file.bytes) e (header-IsLineOf file.bytes)))

-- The file with more bytes at its end.
abbrev pub grown : File → List ℕ → ℕ → File
grown file more mtime_us = record file { bytes = file.bytes ++ more; mtime_us = mtime_us }

str_eq_refl : (s : String) → str_eq s s ≡ true
str_eq_refl s = (eq_iff s s).1 refl

pub and_true : {a b : Bool} → a ≡ true → b ≡ true → (a && b) ≡ true
and_true p q = rw (p, q) refl

same_tail :
    (x : Context) (n offset : ℕ) (bytes more : List ℕ)
    → offset ≤ length bytes
    → str_eq
        (x.digest (drop n (take offset bytes)))
        (x.digest (drop n (take offset (bytes ++ more))))
      ≡ true
same_tail x n offset bytes more h = rw (take-append offset bytes more h) (str_eq_refl _)

same_time :
    (size size' time time' : ℕ) (more : List ℕ)
    → size' ≡ size + length more
    → (length more ≡ 0 → time' ≡ time)
    → (not (size == size') || time == time') ≡ true
same_time size size' time time' [] e h = ground (arith, e, h refl)
same_time size size' time time' (b ∷ more) e h = ground (arith, e)

pub same_content :
    (x : Context) (from_slice : List ℕ → Option Value) (head : List ℕ) (file : File) (more : List ℕ)
    (mtime_us : ℕ) (r : Reader)
    → (length more ≡ 0 → mtime_us ≡ file.mtime_us)
    → Stopped x head file r
    → is_same_content x from_slice head (grown file more mtime_us) r ≡ true
same_content x from_slice head file more mtime_us r m k =
    let size = length-append file.bytes more in
    rw (k.sealed_with) (
      and_true
        (and_true
          (and_true (and_true (str_eq_refl (x.digest head)) (ground (arith, k.within)))
            (ground (arith, size)))
          (same_time (length file.bytes) (length (file.bytes ++ more)) file.mtime_us mtime_us more
            size m))
        (same_tail x (r.offset - 1024) r.offset file.bytes more k.within))
