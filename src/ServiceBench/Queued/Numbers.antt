-- ===== src/ServiceBench/Queued/Numbers.antt =====
-- Rows of requests whose numbers rise.
use ros2_pubsub_benchmark.Prelude.{ℕ, suc, ◌+◌, ◌≤◌, ◌≡◌, ◌∙◌, List, [], ◌∷◌, ◌++◌, length, arith}
use ros2_pubsub_benchmark.Prelude.Int.{pos}
use ros2_pubsub_benchmark.TopicBench.{Message}
use ros2_pubsub_benchmark.ServiceBench.Queued.{Ascending}

pub Ascending-append :
    (n count : ℕ) (xs : List Message) (x : Message)
    → x.msgid ≡ pos count
    → Ascending n count xs
    → Ascending n (suc count) (xs ++ x ∷ [])
Ascending-append n count [] x e h = (count, e, h, omega arith)
Ascending-append n count (y ∷ ys) x e (a, numbered, low, rest) =
    (a, numbered, low, Ascending-append (suc a) count ys x e rest)

-- A request is replaced by another one with its number.
pub Ascending-replace :
    (n count : ℕ) (before behind : List Message) (x y : Message)
    → y.msgid ≡ x.msgid
    → Ascending n count (before ++ x ∷ behind)
    → Ascending n count (before ++ y ∷ behind)
Ascending-replace n count [] behind x y e (a, numbered, low, rest) = (a, e ∙ numbered, low, rest)
Ascending-replace n count (z ∷ zs) behind x y e (a, numbered, low, rest) =
    (a, numbered, low, Ascending-replace (suc a) count zs behind x y e rest)

pub Ascending-lower :
    (n a count : ℕ) (xs : List Message) → n ≤ a → Ascending a count xs → Ascending n count xs
Ascending-lower n a count [] h r = omega arith
Ascending-lower n a count (x ∷ xs) h (b, numbered, low, rest) = (b, numbered, omega arith, rest)

pub Ascending-remove :
    (n count : ℕ) (before dropped behind : List Message)
    → Ascending n count (before ++ (dropped ++ behind))
    → Ascending n count (before ++ behind)
Ascending-remove n count [] [] behind h = h
Ascending-remove n count [] (x ∷ xs) behind (a, numbered, low, rest) =
    Ascending-lower n (suc a) count behind (omega arith)
      (Ascending-remove (suc a) count [] xs behind rest)
Ascending-remove n count (y ∷ ys) dropped behind (a, numbered, low, rest) =
    (a, numbered, low, Ascending-remove (suc a) count ys dropped behind rest)

pub Ascending-length :
    (n count : ℕ) (xs : List Message) → Ascending n count xs → n + length xs ≤ count
Ascending-length n count [] h = omega arith
Ascending-length n count (x ∷ xs) (a, numbered, low, rest) =
    omega (arith, Ascending-length (suc a) count xs rest)
