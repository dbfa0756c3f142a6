-- ===== src/Command/Dashboard.antt =====
-- main.go: runTUI, with its two goroutines. The feed sends a snapshot to the program until the context has
-- ended; the call waits for the program and then for the feed. The library bubbletea runs the program,
-- which may end at any time, by itself or because the user quits or the context ends.
use auto_tunnel.Prelude.{◌≡◌, refl, sym, ◌∙◌, Bool, true, false, Option, none, some}
use auto_tunnel.Text.{Bytes}

-- Where the call stands: program.Run with its error, `<-feedDone`, and the return with its own.
pub data Showing : Type 0 where
  running : Showing
  waits_for_feed : (error : Option Bytes) → Showing
  returned : (error : Option Bytes) → Showing

pub record Dashboard : Type 0 where
  pub showing : Showing
  pub feeding : Bool
  -- A signal has come, so that the context has ended.
  pub ended : Bool

abbrev pub shown_first : Dashboard
shown_first = record { showing = running; feeding = true; ended = false }

-- An error is none if the context has ended.
unfoldable pub display_error : Option Bytes → Bool → Option Bytes
display_error none ended = none
display_error (some reason) true = none
display_error (some reason) false = some reason

pub data Change : Dashboard → Dashboard → Type 0 where
  signalled : (d : Dashboard) → Change d (record d { ended = true })
  feeds : (d : Dashboard) → d.feeding ≡ true → Change d d
  feed_ends :
      (d : Dashboard) → d.feeding ≡ true → d.ended ≡ true → Change d (record d { feeding = false })
  -- The user quits, the program fails, or it sees that the context has ended.
  program_ends :
      (d : Dashboard) (error : Option Bytes)
      → d.showing ≡ running
      → Change d (record d { showing = waits_for_feed error })
  returns_now :
      (d : Dashboard) (error : Option Bytes)
      → d.showing ≡ waits_for_feed error
      → d.feeding ≡ false
      → Change d (record d { showing = returned (display_error error d.ended) })

pub data Changes (c : Dashboard) : Dashboard → Type 0 where
  unchanged : Changes c c
  then_changes : {d e : Dashboard} → Changes c d → Change d e → Changes c e

-- The feed ends by a signal alone, and the call returns behind the feed.
record IsFed (d : Dashboard) : Type 0 where
  signal : d.feeding ≡ false → d.ended ≡ true
  behind :
      (error : Option Bytes) → d.showing ≡ returned error → (d.feeding ≡ false) × (error ≡ none)

display_error-ended :
    (error : Option Bytes) (ended : Bool) → ended ≡ true → display_error error ended ≡ none
unfolding display_error
display_error-ended none ended h = refl
display_error-ended (some reason) ended h = rw h refl

returned-eq : {x y : Option Bytes} → returned x ≡ returned y → x ≡ y
returned-eq h = cc

Change-IsFed : {c d : Dashboard} → Change c d → IsFed c → IsFed d
Change-IsFed (signalled d) h = record { signal = λ q. refl; behind = h.behind }
Change-IsFed (feeds d f) h = h
Change-IsFed (feed_ends d f e) h = record {
  signal = λ q. e;
  behind = λ error q. (refl, (h.behind error q).1);
}
Change-IsFed (program_ends d error r) h = record {
  signal = h.signal;
  behind = λ error q. absurd (cc);
}
Change-IsFed (returns_now d error w f) h = record {
  signal = h.signal;
  behind =
      λ returned_error q. (f, sym (returned-eq q) ∙ display_error-ended error d.ended (h.signal f));
}

Changes-IsFed : {c d : Dashboard} → Changes c d → IsFed c → IsFed d
Changes-IsFed unchanged h = h
Changes-IsFed (then_changes cs c) h = Change-IsFed c (Changes-IsFed cs h)

first-IsFed : IsFed shown_first
first-IsFed = record { signal = λ q. absurd (cc); behind = λ error q. absurd (cc) }

-- However its goroutines move and however the program ends, runTUI returns only once a signal has ended
-- the context, and then without an error.
pub returned-ended :
    (d : Dashboard) (error : Option Bytes)
    → Changes shown_first d
    → d.showing ≡ returned error
    → (d.ended ≡ true) × (error ≡ none)
returned-ended d error cs e =
    let h = Changes-IsFed cs first-IsFed in
    let (fed, silent) = h.behind error e in (h.signal fed, silent)
