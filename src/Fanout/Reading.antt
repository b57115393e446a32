-- ===== src/Fanout/Reading.antt =====
-- What one look at the ring hands a consumer, in terms of the feed.
use tightbeam.Base.{
  ℕ, ◌+◌, ◌-◌, ◌≤◌, ◌<◌, ◌≡◌, refl, sym, ap, min, Bool, List, [], ◌∷◌, ◌++◌, length, take, drop,
  ltb, leb, ◌==◌, if◌then◌else◌, arith, length-drop, length-take, subst, drop-drop, drop-nil,
  take-nil, take-append, drop-append, drop_all, append-nil, take-min, true, false, Bool-cases, inl,
  inr, ltb→lt, ltb→le, leb→le, leb→lt, ==→eq,
}
use tightbeam.Fanout.{
  Cursor, Poll, ready, pending, ring_bytes, look, copy_slices, copy_from_deque, read_at,
}
use tightbeam.Fanout.Window.{window}

join : List (List ℕ) → List ℕ
join [] = []
join (xs ∷ xss) = xs ++ join xss

copy_slices-join :
    (slices : List (List ℕ)) (start n : ℕ)
    → copy_slices slices start n ≡ take n (drop start (join slices))
unfolding copy_slices join
copy_slices-join [] start n = sym (rw (drop-nil start) (take-nil n))
copy_slices-join (s ∷ slices) start n = elim (Bool-cases (n == 0)) [
  | inl stop ↦ let e : n ≡ 0 = ==→eq n 0 stop in rw (e) refl
  | inr go ↦ elim (Bool-cases (leb (length s) start)) [
    | inl past ↦
        let p : length s ≤ start = leb→le (length s) start past in
        let e : min start (length s) ≡ length s = omega arith in
        rw (go, past, drop-append start s (join slices), e, drop_all s)
          (copy_slices-join slices (start - length s) n)
    | inr here ↦
        let p : start < length s = leb→lt (length s) start here in
        let e : min start (length s) ≡ start = omega arith in
        let e' : start - length s ≡ 0 = omega arith in
        let size : length (drop start s) ≡ length s - start = length-drop start s in
        let left : n - min n (length s - start) ≡ n - (length s - start) = omega arith in
        rw
          (
            go,
            here,
            drop-append start s (join slices),
            e,
            e',
            take-append n (drop start s) (join slices),
            size,
            left,
            copy_slices-join slices 0 (n - (length s - start)),
          )
          refl
  ]
]

-- The copy across the deque's split is the slice of its contents, wherever the split is.
copy_from_deque-take-drop :
    (front back : List ℕ) (start n : ℕ)
    → copy_from_deque front back start n ≡ take n (drop start (front ++ back))
unfolding copy_from_deque copy_slices join
copy_from_deque-take-drop front back start n =
    rw (copy_slices-join (front ∷ back ∷ []) start n) (rw (append-nil back) refl)

-- Where the next look starts, and what it yields.
abbrev pub resume : List ℕ → Cursor → ℕ
resume feed cursor =
    if ltb cursor.pos (length feed - ring_bytes) then length feed - ring_bytes else cursor.pos

abbrev pub bytes_of : Poll → List ℕ
bytes_of (ready bytes) = bytes
bytes_of pending = []

no_bytes :
    (pos : ℕ) (closed : Bool) → pos ≡ pos + length (bytes_of (if closed then ready [] else pending))
no_bytes pos true = omega arith
no_bytes pos false = omega arith

read_at-window :
    (feed : List ℕ) (closed : Bool) (remaining : ℕ) (this : Cursor)
    → this.pos ≤ length feed
    → length feed - ring_bytes ≤ this.pos
    → ((read_at (window feed closed) remaining this).0 ≡ (
        if ltb this.pos (length feed)
        then ready (take remaining (drop this.pos feed))
        else if closed
        then ready []
        else pending))
      × ((read_at (window feed closed) remaining this).1.pos
          ≡ this.pos + length (bytes_of (read_at (window feed closed) remaining this).0))
unfolding read_at
read_at-window feed closed remaining this inside level =
    let base : ℕ = length feed - ring_bytes in
    let size : length (drop base feed) ≡ length feed - base = length-drop base feed in
    let edge : base + length (drop base feed) ≡ length feed = omega arith in
    let more : length (drop base feed) - (this.pos - base) ≡ length (drop this.pos feed) =
      omega (arith, length-drop this.pos feed) in
    let back : base + (this.pos - base) ≡ this.pos = omega arith in
    let block : take (min (length (drop this.pos feed)) remaining) (drop this.pos feed)
        ≡ take remaining (drop this.pos feed) =
      take-min remaining (drop this.pos feed) in
    elim (Bool-cases (ltb this.pos (length feed))) [
      | inl behind ↦ (
        rw (edge, behind, more, drop-drop (this.pos - base) base feed, back, block) refl,
        rw (edge, behind, more, drop-drop (this.pos - base) base feed, back, block)
            (ap (λ k. this.pos + k) (omega (arith, length-take remaining (drop this.pos feed)))),
      )
      | inr done ↦ (rw (edge, done) refl, rw (edge, done) (no_bytes this.pos closed))
    ]

-- For a cursor inside the feed: a look resumes at the cursor, or at the oldest byte held when the cursor
-- fell behind it; it hands over the next bytes of the feed from there, as many as there is room for,
-- and moves the cursor over exactly those. With none left it is end of input on a closed ring, and
-- pending on an open one.
pub look-window :
    (feed : List ℕ) (closed : Bool) (remaining : ℕ) (cursor : Cursor)
    → cursor.pos ≤ length feed
    → ((look (window feed closed) remaining cursor).0 ≡ (
        if ltb (resume feed cursor) (length feed)
        then ready (take remaining (drop (resume feed cursor) feed))
        else if closed
        then ready []
        else pending))
      × ((look (window feed closed) remaining cursor).1.pos
          ≡ resume feed cursor + length (bytes_of (look (window feed closed) remaining cursor).0))
unfolding look
look-window feed closed remaining cursor inside =
    elim (Bool-cases (ltb cursor.pos (length feed - ring_bytes))) [
      | inl behind ↦ rw (behind) (
          read_at-window feed closed remaining
            (record { pos = length feed - ring_bytes; lagged = true }) (omega arith) (omega arith))
      | inr level ↦ rw (level) (
          read_at-window feed closed remaining cursor inside
            (ltb→le cursor.pos (length feed - ring_bytes) level))
    ]

resume-between :
    (feed : List ℕ) (cursor : Cursor)
    → cursor.pos ≤ length feed
    → (cursor.pos ≤ resume feed cursor) × (resume feed cursor ≤ length feed)
resume-between feed cursor inside = elim (Bool-cases (ltb cursor.pos (length feed - ring_bytes))) [
  | inl behind ↦
      let l : cursor.pos < length feed - ring_bytes =
        ltb→lt cursor.pos (length feed - ring_bytes) behind in
      rw (behind) (omega arith, omega arith)
  | inr level ↦ rw (level) (omega arith, inside)
]

yield-fits :
    (feed : List ℕ) (closed : Bool) (remaining from : ℕ)
    → from ≤ length feed
    → from
        + length (
            bytes_of (
              if ltb from (length feed)
              then ready (take remaining (drop from feed))
              else if closed
              then ready []
              else pending))
      ≤ length feed
yield-fits feed closed remaining from inside = elim (Bool-cases (ltb from (length feed))) [
  | inl more ↦
      rw (more) (omega (arith, length-take remaining (drop from feed), length-drop from feed))
  | inr done ↦ rw (done) (subst (λ k. k ≤ length feed) (no_bytes from closed) inside)
]

-- A look leaves the cursor inside the feed, and never moves it back.
pub look-inside :
    (feed : List ℕ) (closed : Bool) (remaining : ℕ) (cursor : Cursor)
    → cursor.pos ≤ length feed
    → (cursor.pos ≤ (look (window feed closed) remaining cursor).1.pos)
      × ((look (window feed closed) remaining cursor).1.pos ≤ length feed)
look-inside feed closed remaining cursor inside =
    let (yields, moves) = look-window feed closed remaining cursor inside in
    let (later, within) = resume-between feed cursor inside in
    let fits = yield-fits feed closed remaining (resume feed cursor) within in
    (
      subst (λ k. cursor.pos ≤ k) (sym moves) (omega arith),
      subst (λ k. k ≤ length feed) (sym moves)
          (subst (λ p. resume feed cursor + length (bytes_of p) ≤ length feed) (sym yields) fits),
    )
