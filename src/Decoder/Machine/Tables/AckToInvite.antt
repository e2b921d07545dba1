-- ===== src/Decoder/Machine/Tables/AckToInvite.antt =====
-- decoder/machine.go: the switches of the states of ACK, BYE, CANCEL, INFO and INVITE, and what follows a method.
use heplify.Common.{[], ◌∷◌}
use heplify.Decoder.Machine.Labels.{leave, Switch, on, st, tr27, tr28}

abbrev pub case_15 : Switch
case_15 = (on 67 (st 16) ∷ on 99 (st 2) ∷ [], st 1)

abbrev pub case_16 : Switch
case_16 = (on 67 (st 2) ∷ on 75 (st 17) ∷ on 83 (st 3) ∷ on 99 (st 2) ∷ on 115 (st 3) ∷ [], st 1)

abbrev pub case_17 : Switch
case_17 = (on 13 tr27 ∷ on 67 (st 2) ∷ on 99 (st 2) ∷ [], st 1)

abbrev pub case_18 : Switch
case_18 = (on 10 tr28 ∷ [], leave)

abbrev pub case_0 : Switch
case_0 = ([], leave)

abbrev pub case_71 : Switch
case_71 = ([], leave)

abbrev pub case_19 : Switch
case_19 = (on 67 (st 2) ∷ on 89 (st 20) ∷ on 99 (st 2) ∷ [], st 1)

abbrev pub case_20 : Switch
case_20 = (on 67 (st 2) ∷ on 69 (st 17) ∷ on 99 (st 2) ∷ [], st 1)

abbrev pub case_21 : Switch
case_21 = (on 65 (st 22) ∷ on 67 (st 2) ∷ on 83 (st 3) ∷ on 99 (st 2) ∷ on 115 (st 3) ∷ [], st 1)

abbrev pub case_22 : Switch
case_22 = (on 67 (st 2) ∷ on 78 (st 23) ∷ on 99 (st 2) ∷ [], st 1)

abbrev pub case_23 : Switch
case_23 = (on 67 (st 24) ∷ on 99 (st 2) ∷ [], st 1)

abbrev pub case_24 : Switch
case_24 = (on 67 (st 2) ∷ on 69 (st 25) ∷ on 83 (st 3) ∷ on 99 (st 2) ∷ on 115 (st 3) ∷ [], st 1)

abbrev pub case_25 : Switch
case_25 = (on 67 (st 2) ∷ on 76 (st 17) ∷ on 99 (st 2) ∷ [], st 1)

abbrev pub case_26 : Switch
case_26 = (on 67 (st 2) ∷ on 78 (st 27) ∷ on 99 (st 2) ∷ [], st 1)

abbrev pub case_27 : Switch
case_27 = (on 67 (st 2) ∷ on 70 (st 28) ∷ on 86 (st 29) ∷ on 99 (st 2) ∷ [], st 1)

abbrev pub case_28 : Switch
case_28 = (on 67 (st 2) ∷ on 79 (st 17) ∷ on 99 (st 2) ∷ [], st 1)

abbrev pub case_29 : Switch
case_29 = (on 67 (st 2) ∷ on 73 (st 30) ∷ on 99 (st 2) ∷ [], st 1)

abbrev pub case_30 : Switch
case_30 = (on 67 (st 2) ∷ on 84 (st 20) ∷ on 99 (st 2) ∷ [], st 1)
