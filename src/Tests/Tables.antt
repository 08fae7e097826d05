-- ===== src/Tests/Tables.antt =====
-- A hash table with the functions of the websocket channels.
use nginx_comment.Common.{◌≡◌, refl, true, false, ◌==◌, arith}
use nginx_comment.HashTable.{HashTable, insert, insert_here, lookup, replace}
use nginx_comment.HashTable.Lookup.{IsValid}
use nginx_comment.HashTable.Map.{empty, empty-IsValid, insert-IsValid, lookup-insert}

abbrev pub channels : HashTable
channels = empty (λ key. key) ◌==◌

pub channels-IsValid : IsValid channels
channels-IsValid = empty-IsValid (λ key. key) ◌==◌ (λ _ _. refl)

insert-IsValid_example : IsValid (insert true true 200 5 channels).0
unfolding empty
insert-IsValid_example = insert-IsValid true true 200 5 channels channels-IsValid (omega arith)

abbrev one_channel : HashTable
one_channel = (insert true true 200 5 channels).0

one_channel-IsValid : IsValid one_channel
unfolding empty
one_channel-IsValid = insert-IsValid true true 200 5 channels channels-IsValid (omega arith)

-- The keys 7 and 200 share a chain.
lookup-insert_example : lookup 200 (insert false true 7 9 one_channel).0 ≡ lookup 200 one_channel
unfolding empty insert insert_here replace
lookup-insert_example =
    lookup-insert false true 7 9 one_channel one_channel-IsValid (omega arith) 200 refl
